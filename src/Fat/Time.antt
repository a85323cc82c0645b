-- ===== src/Fat/Time.antt =====
-- mizu/lib/afat32/src/time.rs, `Time` and `DateTime`: a time as a 16-bit word and a byte of a
-- directory entry. The arithmetic is that of a `u16`.
use Prim.Native.Nat.{bit_or}
use umi.Base.{
  ℕ, ◌+◌, ◌*◌, ◌/◌, ◌%◌, ◌^◌, ◌<◌, ◌≡◌, refl, ◌∙◌, ◌&&◌, leb, if◌then◌else◌, Run, done, panic,
  arith,
}
use umi.Words.Laws.{bit_or-lt}
use umi.Words.Sums.{bit_or-add}
use umi.Fat.Date.{Date, decode_date}

pub record Time : Type 0 where
  pub hour : ℕ
  pub minute : ℕ
  pub sec : ℕ
  pub millis : ℕ

pub record DateTime : Type 0 where
  pub date : Date
  pub time : Time

-- `new`, which panics on a field out of its range.
unfoldable pub new_time : ℕ → ℕ → ℕ → ℕ → Run Time
new_time hour minute sec millis =
    if leb hour 23 && leb minute 59 && leb sec 59 && leb millis 999
    then done (record { hour = hour; minute = minute; sec = sec; millis = millis })
    else panic

pub decode_time : ℕ → ℕ → Time
decode_time dos_time hi_res = record {
  hour = dos_time / 2 ^ 11;
  minute = dos_time / 2 ^ 5 % 2 ^ 6;
  sec = dos_time % 2 ^ 5 * 2 + hi_res / 100;
  millis = hi_res % 100 * 10;
}

pub encode_time : Time → ℕ × ℕ
encode_time t = (
  bit_or (bit_or (t.hour * 2 ^ 11 % 2 ^ 16) (t.minute * 2 ^ 5 % 2 ^ 16)) (t.sec / 2),
  (t.millis / 10 + t.sec % 2 * 100) % 2 ^ 8,
)

pub decode_date_time : ℕ → ℕ → ℕ → DateTime
decode_date_time dos_date dos_time hi_res = record {
  date = decode_date dos_date;
  time = decode_time dos_time hi_res;
}

-- `NullTimeProvider`.
pub get_current_date : Date
get_current_date = decode_date 0

pub get_current_date_time : DateTime
get_current_date_time = decode_date_time 0 0 0

-- The fields fit in the bits that the word has for them.
pub IsTime : Time → Type 0
IsTime t = (t.hour < 32) × (t.minute < 64) × (t.sec < 64) × (t.millis < 1000)

pub new_time-IsTime : (h m s ms : ℕ) (time : Time) → new_time h m s ms ≡ done time → IsTime time
unfolding new_time IsTime
new_time-IsTime h m s ms time e = ground arith

encode_time_lem :
    (t : Time)
    → IsTime t
    → encode_time t
      ≡ (t.hour * 2 ^ 11 + t.minute * 2 ^ 5 + t.sec / 2, t.millis / 10 + t.sec % 2 * 100)
unfolding encode_time IsTime
encode_time_lem t v =
    let hour : t.hour * 2 ^ 11 % 2 ^ 16 ≡ t.hour * 2 ^ 11 = omega arith in
    let minute : t.minute * 2 ^ 5 % 2 ^ 16 ≡ t.minute * 2 ^ 5 = omega arith in
    let both : t.hour * 2 ^ 11 + t.minute * 2 ^ 5 ≡ (t.hour * 64 + t.minute) * 2 ^ 5 =
      omega arith in
    let hi_res : (t.millis / 10 + t.sec % 2 * 100) % 2 ^ 8 ≡ t.millis / 10 + t.sec % 2 * 100 =
      omega arith in
    let high = bit_or-add 16 11 t.hour (t.minute * 2 ^ 5) (omega arith) (omega arith) in
    let low = bit_or-add 16 5 (t.hour * 64 + t.minute) (t.sec / 2) (omega arith) (omega arith) in
    rw (hi_res, hour, minute, high, both, low) refl

decode_fields :
    (h m s hi : ℕ)
    → m < 64
    → s < 32
    → decode_time (h * 2 ^ 11 + m * 2 ^ 5 + s) hi
      ≡ record { hour = h; minute = m; sec = s * 2 + hi / 100; millis = hi % 100 * 10 }
unfolding decode_time
decode_fields h m s hi hm hs = ground arith

-- A time that `new` accepts is decoded from its encoding, with the milliseconds rounded down to
-- hundredths of a second.
pub decode-encode_time :
    (h m s ms : ℕ) (time : Time)
    → new_time h m s ms ≡ done time
    → decode_time (encode_time time).0 (encode_time time).1
      ≡ record time { millis = time.millis / 10 * 10 }
unfolding IsTime
decode-encode_time h m s ms time e =
    let v = new_time-IsTime h m s ms time e in
    let hi = time.millis / 10 + time.sec % 2 * 100 in
    let sec : time.sec / 2 * 2 + hi / 100 ≡ time.sec = omega arith in
    let millis : hi % 100 * 10 ≡ time.millis / 10 * 10 = omega arith in
    rw (encode_time_lem time v) (
      decode_fields time.hour time.minute (time.sec / 2) hi (omega arith) (omega arith)
      ∙ rw (sec, millis) refl)

pub encode-decode_time :
    (x hi : ℕ) → x < 2 ^ 16 → hi < 200 → encode_time (decode_time x hi) ≡ (x, hi)
unfolding decode_time IsTime
encode-decode_time x hi h k = encode_time_lem (decode_time x hi) (ground arith) ∙ ground arith

pub encode_time-lt : (t : Time) → IsTime t → (encode_time t).0 < 2 ^ 16
unfolding encode_time IsTime
encode_time-lt t h =
    let hour = t.hour * 2 ^ 11 % 2 ^ 16 in
    let minute = t.minute * 2 ^ 5 % 2 ^ 16 in
    let low : bit_or hour minute < 2 ^ 16 = bit_or-lt 16 hour minute (omega arith) (omega arith) in
    bit_or-lt 16 (bit_or hour minute) (t.sec / 2) low (ground arith)
