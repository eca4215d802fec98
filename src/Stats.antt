-- ===== src/Stats.antt =====
-- internal/pkg/statprocessors: what turns the server's answers into metrics.
pub mod Metric
pub mod Filter
pub mod Gauges
pub mod Cache
pub mod Shared
pub mod Sets
pub mod Sindex
pub mod Xdr
pub mod Users
pub mod Benchmarks
pub mod Node
pub mod Latencies
pub mod Namespace
