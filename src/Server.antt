-- ===== src/Server.antt =====
-- internal/pkg/dataprovider/aero_server.go: the connection to the Aerospike server, over the
-- client library.
pub mod Client
pub mod Policy
pub mod Connect
pub mod Request
pub mod Users
pub mod Protocol
pub mod Sessions
