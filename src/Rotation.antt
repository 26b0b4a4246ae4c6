-- ===== src/Rotation.antt =====
-- crates/rotation-model/src/lib.rs: the product's references, coordinates and policy.
pub mod References
pub mod Observations
pub mod Policy
pub mod PolicyLaws
