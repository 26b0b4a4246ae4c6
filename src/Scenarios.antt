-- ===== src/Scenarios.antt =====
-- Runs of the model at concrete inputs: one device, one rotation, with a store that always succeeds.
pub mod Samples
pub mod States
pub mod Operations
pub mod Policies
pub mod Agents
pub mod Disks
pub mod Files
pub mod Drivers
pub mod Assertions
pub mod Catalogs
pub mod Deliveries
