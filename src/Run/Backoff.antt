-- ===== src/Run/Backoff.antt =====
-- src/run.rs: `next_backoff` and `jittered`. A `Duration` is its number of nanoseconds.
-- The jitter's factor is `0.75 + r * 0.5` with `r` the random fraction `sample / 2^53`; the product is
-- taken exactly, without the rounding of `f64`, and `as u64` saturates it.
use nexus_client.Prelude.{ℕ, ◌+◌, ◌*◌, ◌-◌, ◌/◌, ◌^◌, min, Option, none, some}

abbrev pub nanos_per_sec : ℕ
nanos_per_sec = 1_000_000_000

abbrev pub nanos_per_milli : ℕ
nanos_per_milli = 1_000_000

abbrev pub backoff_min : ℕ
backoff_min = nanos_per_sec

abbrev pub backoff_max : ℕ
backoff_max = 30 * nanos_per_sec

-- `Duration::MAX`
abbrev duration_max : ℕ
duration_max = 2 ^ 64 * nanos_per_sec - 1

abbrev saturating_mul : ℕ → ℕ → ℕ
saturating_mul d k = min (d * k) duration_max

unfoldable pub next_backoff : Option ℕ → ℕ
next_backoff none = backoff_min
next_backoff (some d) = min (saturating_mul d 2) backoff_max

abbrev pub samples : ℕ
samples = 2 ^ 53

unfoldable pub jittered : ℕ → ℕ → ℕ
jittered base sample =
    let millis = base / nanos_per_milli in
    min (millis * (3 * samples + 2 * sample) / (4 * samples)) (2 ^ 64 - 1) * nanos_per_milli
