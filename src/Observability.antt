-- ===== src/Observability.antt =====
-- observability/: the counters.
pub mod Metrics
