-- ===== src/Instant/Spans.antt =====
-- Round trips of instants, and what the span between two instants is.
use umi.Base.{
  ℕ, ◌+◌, ◌-◌, ◌*◌, ◌/◌, ◌%◌, ◌^◌, ◌≤◌, ◌<◌, ◌≡◌, ◌↔◌, inl, inr, le_or_lt, some, done, panic, arith,
}
use umi.Instant.{
  Duration, duration, as_micros, checked_duration_since, duration_since, checked_add, checked_sub,
  add, sub, to_su, from_su, from_raw, Board, qemu_virt, cv1811h, denom, or_default, some_run,
  expect,
}

-- Seconds of 64 bits and microseconds below a second can be read from the instant that is made of
-- them.
pub to_su-from_su :
    (secs micros : ℕ)
    → secs < 2 ^ 64
    → micros < 1000000
    → to_su (from_su secs micros) ≡ (secs, micros)
unfolding to_su from_su
to_su-from_su secs micros h g = ground arith

pub from_su-to_su : (i : ℕ) → i < 2 ^ 64 * 1000000 → from_su (to_su i).0 (to_su i).1 ≡ i
unfolding to_su from_su
from_su-to_su i h = omega arith

-- For instants of 128 bits, a duration that was added can be taken away again, and the other way
-- round.
pub checked_add-checked_sub :
    (i j : ℕ) (d : Duration)
    → i < 2 ^ 128
    → j < 2 ^ 128
    → (checked_add i d ≡ some j) ↔ (checked_sub j d ≡ some i)
unfolding checked_add checked_sub as_micros
checked_add-checked_sub i j d h g = (λ e. ground arith, λ e. ground arith)

-- For an instant whose seconds fit into 64 bits, the span since another keeps the whole seconds,
-- but of the microseconds within a second only every thousandth; an instant that is not later gives
-- no span.
pub duration_since_lem :
    (i earlier : ℕ)
    → i < 2 ^ 64 * 1000000
    → (d : Duration) × (duration_since i earlier ≡ done d)
      × (as_micros d ≡ (i - earlier) / 1000000 * 1000000 + (i - earlier) % 1000000 / 1000)
unfolding duration_since checked_duration_since duration as_micros some_run or_default
duration_since_lem i earlier h = elim (le_or_lt earlier i) [
  | inl later ↦
      let micros = i - earlier in
      (record { secs = micros / 1000000; nanos = micros % 1000000 }, ground arith, omega arith)
  | inr before ↦ (record { secs = 0; nanos = 0 }, ground arith, omega arith)
]

-- The clock counts microseconds on both boards: one passes with as many ticks as the board has in
-- a microsecond, whatever the tick it starts from.
pub from_raw_lem :
    (board : Board) (raw : ℕ) → from_raw board (raw + denom board) ≡ from_raw board raw + 1
unfolding from_raw denom
from_raw_lem qemu_virt raw = omega arith
from_raw_lem cv1811h raw = omega arith

-- Adding and taking away panic exactly where the result is not an instant.
pub add-sub :
    (i : ℕ) (d : Duration)
    → ((add i d ≡ panic) ↔ (2 ^ 128 ≤ i + as_micros d)) × ((sub i d ≡ panic) ↔ (i < as_micros d))
unfolding add sub expect checked_add checked_sub
add-sub i d = ((λ e. ground arith, λ e. ground arith), (λ e. ground arith, λ e. ground arith))
