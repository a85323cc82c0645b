-- ===== src/Instant/Tests.antt =====
-- Runs of instants and durations.
use umi.Base.{◌+◌, ◌-◌, ◌*◌, ◌/◌, ◌%◌, ◌≡◌, done, arith}
use umi.Instant.{Duration, as_micros, duration_since}
use umi.Instant.Spans.{duration_since_lem}

abbrev half_second : Duration
half_second = record { secs = 0; nanos = 500000000 }

-- Half a second is read as five hundred microseconds.
duration_since_lem_example :
    (d : Duration) × (duration_since 1500000 1000000 ≡ done d)
    × (as_micros d ≡ (1500000 - 1000000) / 1000000 * 1000000 + (1500000 - 1000000) % 1000000 / 1000)
duration_since_lem_example = duration_since_lem 1500000 1000000 (omega arith)
