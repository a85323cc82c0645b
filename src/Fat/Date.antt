-- ===== src/Fat/Date.antt =====
-- mizu/lib/afat32/src/time.rs, `Date`: a date as the 16-bit word of a directory entry. The
-- arithmetic is that of a `u16`, which wraps around.
use Prim.Native.Nat.{bit_or}
use umi.Base.{
  ℕ, ◌+◌, ◌-◌, ◌*◌, ◌/◌, ◌%◌, ◌^◌, ◌≤◌, ◌<◌, ◌≡◌, refl, ◌∙◌, ◌&&◌, leb, if◌then◌else◌, Run, done,
  panic, arith,
}
use umi.Words.Laws.{bit_or-lt}
use umi.Words.Sums.{bit_or-add}

pub record Date : Type 0 where
  pub year : ℕ
  pub month : ℕ
  pub day : ℕ

abbrev pub min_year : ℕ
min_year = 1980

abbrev pub max_year : ℕ
max_year = 2107

-- `new`, which panics on a field out of its range.
unfoldable pub new_date : ℕ → ℕ → ℕ → Run Date
new_date year month day =
    if leb min_year year
      && leb year max_year
      && leb 1 month
      && leb month 12
      && leb 1 day
      && leb day 31
    then done (record { year = year; month = month; day = day })
    else panic

unfoldable pub decode_date : ℕ → Date
decode_date dos_date = record {
  year = (dos_date / 2 ^ 9 + min_year) % 2 ^ 16;
  month = dos_date / 2 ^ 5 % 2 ^ 4;
  day = dos_date % 2 ^ 5;
}

unfoldable pub encode_date : Date → ℕ
encode_date d =
    bit_or
      (bit_or ((d.year + 2 ^ 16 - min_year) % 2 ^ 16 * 2 ^ 9 % 2 ^ 16) (d.month * 2 ^ 5 % 2 ^ 16))
      d.day

-- The fields fit in the bits that the word has for them.
unfoldable pub IsDate : Date → Type 0
IsDate d = (min_year ≤ d.year) × (d.year ≤ max_year) × (d.month < 16) × (d.day < 32)

pub new_date-IsDate : (y m d : ℕ) (date : Date) → new_date y m d ≡ done date → IsDate date
unfolding new_date IsDate
new_date-IsDate y m d date h = ground arith

pub encode_date_lem :
    (d : Date) → IsDate d → encode_date d ≡ (d.year - min_year) * 2 ^ 9 + d.month * 2 ^ 5 + d.day
unfolding encode_date IsDate
encode_date_lem d v =
    let y = d.year - min_year in
    let year : (d.year + 2 ^ 16 - min_year) % 2 ^ 16 * 2 ^ 9 % 2 ^ 16 ≡ y * 2 ^ 9 = omega arith in
    let month : d.month * 2 ^ 5 % 2 ^ 16 ≡ d.month * 2 ^ 5 = omega arith in
    let both : y * 2 ^ 9 + d.month * 2 ^ 5 ≡ (y * 16 + d.month) * 2 ^ 5 = omega arith in
    rw (year, month, bit_or-add 16 9 y (d.month * 2 ^ 5) (omega arith) (omega arith), both)
      (bit_or-add 16 5 (y * 16 + d.month) d.day (omega arith) (omega arith))

decode_fields :
    (y m d : ℕ)
    → y < 128
    → m < 16
    → d < 32
    → decode_date (y * 2 ^ 9 + m * 2 ^ 5 + d) ≡ record { year = y + min_year; month = m; day = d }
unfolding decode_date
decode_fields y m d hy hm hd = ground arith

pub decode-encode_date :
    (y m d : ℕ) (date : Date) → new_date y m d ≡ done date → decode_date (encode_date date) ≡ date
unfolding IsDate
decode-encode_date y m d date h =
    let v = new_date-IsDate y m d date h in
    let year : date.year - min_year + min_year ≡ date.year = omega arith in
    rw (encode_date_lem date v) (
      decode_fields (date.year - min_year) date.month date.day (omega arith) (omega arith)
        (omega arith)
      ∙ rw year refl)

-- Every word of 16 bits is decoded to a date that is encoded to it.
pub encode-decode_date : (x : ℕ) → x < 2 ^ 16 → encode_date (decode_date x) ≡ x
unfolding decode_date IsDate
encode-decode_date x h = encode_date_lem (decode_date x) (omega arith) ∙ omega arith

pub encode_date-lt : (d : Date) → IsDate d → encode_date d < 2 ^ 16
unfolding encode_date IsDate
encode_date-lt d h =
    let y = (d.year + 2 ^ 16 - 1980) % 2 ^ 16 * 2 ^ 9 % 2 ^ 16 in
    let m = d.month * 2 ^ 5 % 2 ^ 16 in
    let low : bit_or y m < 2 ^ 16 = bit_or-lt 16 y m (omega arith) (omega arith) in
    bit_or-lt 16 (bit_or y m) d.day low (ground arith)
