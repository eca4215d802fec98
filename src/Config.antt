-- ===== src/Config.antt =====
-- The exporter's configuration: internal/pkg/config/config.go. A field that the program never
-- reads (the open log file) is left out.
mod Outcomes
mod Data
pub mod Lists
pub mod Validate
pub mod Surroundings
pub use Outcomes.*
pub use Data.*
