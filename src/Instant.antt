-- ===== src/Instant.antt =====
-- mizu/lib/ktime-core/src/instant.rs: points of time in microseconds, a `u128`, and the durations of
-- `core::time` between them.
pub mod Spans
mod Tests
use umi.Base.{
  ℕ, ◌+◌, ◌-◌, ◌*◌, ◌/◌, ◌%◌, ◌^◌, Bool, true, false, ltb, Option, none, some, if◌then◌else◌, Run,
  done, panic,
}

-- `core::time::Duration`: the nanoseconds are below a second.
pub record Duration : Type 0 where
  pub secs : ℕ
  pub nanos : ℕ

-- `Duration::new`, which carries whole seconds over and panics if they overflow.
pub duration : ℕ → ℕ → Run Duration
duration secs nanos =
    if ltb (secs + nanos / 10 ^ 9) (2 ^ 64)
    then done (record { secs = secs + nanos / 10 ^ 9; nanos = nanos % 10 ^ 9 })
    else panic

unfoldable pub as_micros : Duration → ℕ
as_micros d = d.secs * 10 ^ 6 + d.nanos / 1000

abbrev pub Instant : Type 0
Instant = ℕ

some_run : {A : Type 0} → Run A → Run (Option A)
some_run (done a) = done (some a)
some_run panic = panic

pub checked_duration_since : Instant → Instant → Run (Option Duration)
unfolding duration some_run
checked_duration_since i earlier =
    if ltb i earlier
    then done none
    else (let micros = i - earlier in
        some_run (duration (micros / 1000000 % 2 ^ 64) (micros % 1000000 % 2 ^ 32)))

or_default : Run (Option Duration) → Run Duration
or_default (done none) = done (record { secs = 0; nanos = 0 })
or_default (done (some d)) = done d
or_default panic = panic

pub duration_since : Instant → Instant → Run Duration
unfolding checked_duration_since or_default
duration_since i earlier = or_default (checked_duration_since i earlier)

unfoldable pub checked_add : Instant → Duration → Option Instant
unfolding as_micros
checked_add i d = if ltb (i + as_micros d) (2 ^ 128) then some (i + as_micros d) else none

pub checked_sub : Instant → Duration → Option Instant
unfolding as_micros
checked_sub i d = if ltb i (as_micros d) then none else some (i - as_micros d)

unfoldable pub expect : Option Instant → Run Instant
expect none = panic
expect (some i) = done i

-- `Add` and `Sub` of an instant and a duration.
unfoldable pub add : Instant → Duration → Run Instant
unfolding checked_add expect
add i d = expect (checked_add i d)

pub sub : Instant → Duration → Run Instant
unfolding checked_sub expect
sub i d = expect (checked_sub i d)

pub to_su : Instant → ℕ × ℕ
to_su i = (i / 1000000 % 2 ^ 64, i % 1000000)

pub from_su : ℕ → ℕ → Instant
from_su secs micros = secs * 1000000 + micros

-- The denominator of `TIME_FREQ_M` on the two boards of mizu/lib/config; its numerator is 1.
pub data Board : Type 0 where
  qemu_virt cv1811h : Board

unfoldable pub denom : Board → ℕ
denom qemu_virt = 10
denom cv1811h = 25

pub from_raw : Board → ℕ → Instant
unfolding denom
from_raw board raw = 1 * raw / denom board
