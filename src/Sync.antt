-- ===== src/Sync.antt =====
-- crates/forgetty-sync/src/registry.rs: the list of the paired devices, and its timestamps.
pub mod Calendar
pub mod Registry
pub mod Pairing
pub mod Endpoint
mod Tests
