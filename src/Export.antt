-- ===== src/Export.antt =====
-- internal/pkg/executors: how metrics leave the exporter.
pub mod Names
pub mod Prometheus
pub mod Otel
pub mod Scrape
