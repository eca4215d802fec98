-- ===== src/Latency.antt =====
-- latency_info_parser.go and sp_latency.go: the server's latency histograms.
pub mod Reader
pub mod Buckets
pub mod Names
pub mod Parser
