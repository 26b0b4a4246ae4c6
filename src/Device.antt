-- ===== src/Device.antt =====
-- The crate crates/reference-device-agent-core.
pub mod Types
pub mod State
pub mod Disk
pub mod StateStore
pub mod Restart
pub mod Assertion
pub mod Catalog
pub mod Artifact
pub mod Agent
