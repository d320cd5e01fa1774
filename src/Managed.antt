-- ===== src/Managed.antt =====
-- crates/tiv-stripe-pi/src/lib.rs: `ManagedFixture`, the fixture under the control plane.
pub mod State
pub mod Gates
pub mod Commands
pub mod Sequence
pub mod Waiters
pub mod Gated
pub mod Waiting
