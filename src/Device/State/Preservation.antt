-- ===== src/Device/State/Preservation.antt =====
-- The operations of state.rs keep the state valid.
pub mod Parts
pub mod Recorded
pub mod Accept
pub mod Outbox
pub mod Settled
pub mod Confirm
pub mod Session
