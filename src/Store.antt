-- ===== src/Store.antt =====
-- internal/store: the repository over the Valkey server.
pub mod Instances
pub mod Queue
pub mod Ttl
pub mod Ports
pub mod Limits
pub mod Totals
pub mod Connection
pub mod Contract
pub mod Repository
pub mod Runs
pub mod Served
