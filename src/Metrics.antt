-- ===== src/Metrics.antt =====
-- metrics/: what the metrics thread measures.
pub mod LatencyTracker
pub mod MetricsCollector
pub mod TradeLogger
mod Tests
