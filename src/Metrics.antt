-- ===== src/Metrics.antt =====
-- crates/madrpc-metrics/src: the latency histogram of a method and the registry around it.
pub mod Clock
pub mod Histogram
pub mod Registry
pub mod Recording
