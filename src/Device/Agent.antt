-- ===== src/Device/Agent.antt =====
-- crates/reference-device-agent-core/src/agent.rs: the device state machine.
pub mod Fingerprint
pub mod Store
pub mod Commands
pub mod Sessions
pub mod Atomicity
pub mod Cases
pub mod Monotone
pub mod History
pub mod Durability
pub mod Intake
pub mod Redelivery
pub mod Idempotence
pub mod Refusals
