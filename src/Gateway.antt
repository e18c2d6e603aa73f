-- ===== src/Gateway.antt =====
-- crates/gateway: the clock, and the snapshot cache that it drives.
pub mod Clock
pub mod Snapshot
pub mod Cache
pub mod Operations
pub mod Errors
pub mod Validation
pub mod System
pub mod Runtime
pub mod Query
pub mod AccountClass
pub mod Accounts
pub mod Signing
pub mod Handled
pub mod Authorized
pub mod Serving
pub mod Interleaving
mod Tests
