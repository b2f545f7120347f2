-- ===== src/Metrics/MetricsCollector.antt =====
-- metrics/metrics_collector.h and .cpp: two latency trackers and three counters. `summary` prints.
use lockfree_matching_engine.Prelude.{ℕ, add64}
use lockfree_matching_engine.Metrics.LatencyTracker.{LatencyTracker, new_tracker, record_ns}

pub record MetricsCollector : Type 0 where
  pub match_latency : LatencyTracker
  pub order_latency : LatencyTracker
  pub total_orders : ℕ
  pub total_matches : ℕ
  pub dropped_samples : ℕ

-- A new collector, and what `reset` leaves.
abbrev pub new_collector : MetricsCollector
new_collector = record {
  match_latency = new_tracker;
  order_latency = new_tracker;
  total_orders = 0;
  total_matches = 0;
  dropped_samples = 0;
}

abbrev pub record_match_latency : ℕ → MetricsCollector → MetricsCollector
record_match_latency ns m = record m { match_latency = record_ns ns m.match_latency }

abbrev pub record_order_latency : ℕ → MetricsCollector → MetricsCollector
record_order_latency ns m = record m { order_latency = record_ns ns m.order_latency }

abbrev pub increment_orders : MetricsCollector → MetricsCollector
increment_orders m = record m { total_orders = add64 m.total_orders 1 }

abbrev pub increment_matches : MetricsCollector → MetricsCollector
increment_matches m = record m { total_matches = add64 m.total_matches 1 }

abbrev pub note_dropped_samples : ℕ → MetricsCollector → MetricsCollector
note_dropped_samples n m = record m { dropped_samples = add64 m.dropped_samples n }
