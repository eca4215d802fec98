-- ===== src/Commons.antt =====
-- internal/pkg/commons: the helpers that every other package uses.
pub mod ParseStats
pub mod Convert
pub mod Base64
pub mod Secrets
pub mod Ciphers
pub mod Certificates
pub mod Sanitize
pub mod Versions
