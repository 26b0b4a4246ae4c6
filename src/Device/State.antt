-- ===== src/Device/State.antt =====
-- crates/reference-device-agent-core/src/state.rs: the durable state of the agent.
pub mod Rejection
pub mod Stored
pub mod Hashes
pub mod Entries
pub mod Verify
pub mod Validity
pub mod Journal
pub mod Transitions
pub mod Outbound
pub mod Preservation
pub mod Initial
pub mod Errors
pub mod Publication
