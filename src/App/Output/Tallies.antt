-- ===== src/App/Output/Tallies.antt =====
-- What the samples and the fills that the output thread takes come to in its metrics.
use lockfree_matching_engine.Prelude.{
  ℕ, zero, suc, ◌+◌, ◌%◌, ◌^◌, ◌≡◌, refl, List, [], ◌∷◌, length, add64, arith,
}
use lockfree_matching_engine.Metrics.LatencyTracker.{LatencyTracker, record_ns}
use lockfree_matching_engine.Metrics.MetricsCollector.{
  MetricsCollector, increment_matches, note_dropped_samples,
}
use lockfree_matching_engine.App.Engine.{LatencySample, match_sample, order_sample}
use lockfree_matching_engine.App.Output.{record_sample}
use lockfree_matching_engine.App.Output.Samples.{record_samples, add_matches}

-- The times of the samples of each kind, in their order.
abbrev pub match_times : List LatencySample → List ℕ
match_times [] = []
match_times (match_sample ns ∷ ss) = ns ∷ match_times ss
match_times (order_sample ns ∷ ss) = match_times ss

abbrev pub order_times : List LatencySample → List ℕ
order_times [] = []
order_times (match_sample ns ∷ ss) = order_times ss
order_times (order_sample ns ∷ ss) = ns ∷ order_times ss

-- `record` for each of them.
abbrev pub record_each : List ℕ → LatencyTracker → LatencyTracker
record_each [] t = t
record_each (ns ∷ times) t = record_each times (record_ns ns t)

-- Each tracker has recorded the times of its own kind, in their order; an order is counted for each
-- match sample, and the fills and the lost samples are counted.
pub record Tallied (fills : ℕ) (samples : List LatencySample) (lost : ℕ) (m m' : MetricsCollector)
    : Type 0 where
  pub match_latency : m'.match_latency ≡ record_each (match_times samples) m.match_latency
  pub order_latency : m'.order_latency ≡ record_each (order_times samples) m.order_latency
  pub orders : m'.total_orders % 2 ^ 64 ≡ (m.total_orders + length (match_times samples)) % 2 ^ 64
  pub matches : m'.total_matches % 2 ^ 64 ≡ (m.total_matches + fills) % 2 ^ 64
  pub dropped : m'.dropped_samples ≡ add64 m.dropped_samples lost

-- As much, before the lost samples are noted.
record Kept (fills : ℕ) (samples : List LatencySample) (m m' : MetricsCollector) : Type 0 where
  match_latency : m'.match_latency ≡ record_each (match_times samples) m.match_latency
  order_latency : m'.order_latency ≡ record_each (order_times samples) m.order_latency
  orders : m'.total_orders % 2 ^ 64 ≡ (m.total_orders + length (match_times samples)) % 2 ^ 64
  matches : m'.total_matches % 2 ^ 64 ≡ (m.total_matches + fills) % 2 ^ 64
  dropped : m'.dropped_samples ≡ m.dropped_samples

record_samples-Kept :
    (ss : List LatencySample) (m : MetricsCollector) → Kept 0 ss m (record_samples ss m)
record_samples-Kept [] m = record {
  match_latency = refl;
  order_latency = refl;
  orders = omega arith;
  matches = omega arith;
  dropped = refl;
}
record_samples-Kept (match_sample ns ∷ ss) m =
    let k = record_samples-Kept ss (record_sample (match_sample ns) m) in
    record {
      match_latency = k.match_latency;
      order_latency = k.order_latency;
      orders = omega (arith, k.orders);
      matches = k.matches;
      dropped = k.dropped;
    }
record_samples-Kept (order_sample ns ∷ ss) m =
    let k = record_samples-Kept ss (record_sample (order_sample ns) m) in
    record {
      match_latency = k.match_latency;
      order_latency = k.order_latency;
      orders = k.orders;
      matches = k.matches;
      dropped = k.dropped;
    }

add_matches-Kept :
    (n : ℕ) (ss : List LatencySample) (m m' : MetricsCollector)
    → Kept n ss (increment_matches m) m'
    → Kept (suc n) ss m m'
add_matches-Kept n ss m m' k = record {
  match_latency = k.match_latency;
  order_latency = k.order_latency;
  orders = k.orders;
  matches = omega (arith, k.matches);
  dropped = k.dropped;
}

consumed-Kept :
    (n : ℕ) (ss : List LatencySample) (m : MetricsCollector)
    → Kept n ss m (record_samples ss (add_matches n m))
consumed-Kept zero ss m = record_samples-Kept ss m
consumed-Kept (suc n) ss m = add_matches-Kept n ss m _ (consumed-Kept n ss (increment_matches m))

pub consumed-Tallied :
    (n : ℕ) (ss : List LatencySample) (lost : ℕ) (m : MetricsCollector)
    → Tallied n ss lost m (note_dropped_samples lost (record_samples ss (add_matches n m)))
consumed-Tallied n ss lost m =
    let k = consumed-Kept n ss m in
    record {
      match_latency = k.match_latency;
      order_latency = k.order_latency;
      orders = k.orders;
      matches = k.matches;
      dropped = rw k.dropped refl;
    }
