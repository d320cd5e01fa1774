-- ===== src/Fixture.antt =====
-- crates/tiv-stripe-pi/src/lib.rs: the payment provider's fixture.
pub mod Types
pub mod Wire
pub mod Provider
pub mod Confirm
pub mod Extends
pub mod Runs
pub mod Replays
pub mod Retries
pub mod Consistent
pub mod Ready
pub mod Kept
pub mod Found
pub mod Snapshots
