-- ===== src/Host.antt =====
-- The statistics of the host: host_sysinfo_utils.go and host_sysinfo_provider.go of
-- internal/pkg/dataprovider, and sp_host_systeminfo.go of internal/pkg/statprocessors.
pub mod Numbers
pub mod Segments
pub mod Files
pub mod Processor
pub mod Keys
