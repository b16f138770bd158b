-- ===== src/CircuitBreaker/TimeWindow.antt =====
-- circuitbreaker/window.go: timeWindow, a ring of one-second buckets. An instant is a number of
-- nanoseconds since the Unix epoch, so now.Unix() is its quotient by 10^9.
pub mod Events
pub mod Laps
pub mod Refines
use fortify.Base.{
  ℕ, ◌+◌, ◌-◌, ◌%◌, ◌/◌, List, [], ◌∷◌, Bool, true, false, not, ◌||◌, ltb, ◌==◌, if◌then◌else◌,
  get_or, set, replicate, length,
}

pub record TimeBucket : Type 0 where
  pub epoch : ℕ
  pub calls : ℕ
  pub failures : ℕ

abbrev pub zero_bucket : TimeBucket
zero_bucket = record { epoch = 0; calls = 0; failures = 0 }

pub record TimeWindow : Type 0 where
  pub buckets : List TimeBucket
  pub size : ℕ

unfoldable pub new_time_window : ℕ → TimeWindow
new_time_window size_seconds = record {
  buckets = replicate size_seconds zero_bucket;
  size = size_seconds;
}

-- now.Unix()
abbrev pub unix : ℕ → ℕ
unix now = now / 1000000000

unfoldable pub bucket_index : ℕ → ℕ → ℕ
bucket_index epoch size = (epoch % size + size) % size

-- The bucket that bucketFor points to, cleared if it holds an earlier lap.
unfoldable pub refresh : ℕ → TimeBucket → TimeBucket
refresh epoch b = if b.epoch == epoch then b else record { epoch = epoch; calls = 0; failures = 0 }

-- timeWindow.record: bucketFor, and the counts of the bucket that it points to.
unfoldable pub record_call : Bool → ℕ → TimeWindow → TimeWindow
unfolding bucket_index refresh
record_call success now w =
    let epoch = unix now in
    let idx = bucket_index epoch w.size in
    let b = refresh epoch (get_or w.buckets idx zero_bucket) in
    record w {
      buckets = set w.buckets idx (record b {
        calls = b.calls + 1;
        failures = if not success then b.failures + 1 else b.failures;
      });
    }

-- The test of the loop in stats, with both sides of `b.epoch < oldest` moved by size - 1.
unfoldable pub outside : ℕ → ℕ → TimeBucket → Bool
outside second size b = b.calls == 0 || (ltb (b.epoch + size) (second + 1) || ltb second b.epoch)

unfoldable pub sum_stats : ℕ → ℕ → List TimeBucket → ℕ × ℕ
unfolding outside
sum_stats second size [] = (0, 0)
sum_stats second size (b ∷ bs) =
    let rest = sum_stats second size bs in
    if outside second size b then rest else (b.calls + rest.0, b.failures + rest.1)

unfoldable pub stats : ℕ → TimeWindow → ℕ × ℕ
unfolding sum_stats
stats now w = sum_stats (unix now) w.size w.buckets

unfoldable pub reset : TimeWindow → TimeWindow
reset w = record w { buckets = replicate (length w.buckets) zero_bucket }
