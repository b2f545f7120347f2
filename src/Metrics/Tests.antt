-- ===== src/Metrics/Tests.antt =====
-- The theorems of metrics/ at concrete inputs.
use lockfree_matching_engine.Prelude.{ℕ, ◌-◌, ◌*◌, ◌^◌, ◌≤◌, ◌<◌, ◌≡◌, ◌⊎◌, arith, List, [], ◌∷◌}
use lockfree_matching_engine.Metrics.LatencyTracker.{num_bins, bin_of, bucket_upper, percentile}
use lockfree_matching_engine.Metrics.LatencyTracker.Bins.{bin_of_lem}
use lockfree_matching_engine.Metrics.LatencyTracker.Histogram.{
  Recorded, record_all, record_all-Recorded, Percentile, percentile_lem,
}
use lockfree_matching_engine.Metrics.LatencyTracker.Counts.{Counted, record_all-Counted}

abbrev two_samples : List ℕ
two_samples = 5 ∷ 1000 ∷ []

-- A sample that goes to the last bin, though it is above it.
bin_of_lem_example :
    let v = 2 ^ 50 in
    let u = bucket_upper (bin_of v) in
    (bin_of v < num_bins)
    × (((v < 2 ^ 42) × (v ≤ u) × (64 * (u - v) ≤ v))
        ⊎ ((2 ^ 42 ≤ v) × (bin_of v ≡ 2367) × (u ≡ 2 ^ 42 - 1)))
bin_of_lem_example = bin_of_lem (2 ^ 50) (omega arith)

two_samples-Recorded : Recorded (record_all two_samples) two_samples
two_samples-Recorded = record_all-Recorded two_samples (omega arith)

record_all-Counted_example : Counted (record_all two_samples) two_samples
record_all-Counted_example =
    record_all-Counted two_samples (omega arith) (omega arith, (omega arith, tt))

percentile_lem_example : Percentile two_samples 2 (percentile 2 (record_all two_samples))
percentile_lem_example =
    percentile_lem (record_all two_samples) two_samples 2 two_samples-Recorded (omega arith)
      (omega arith) (omega arith)
