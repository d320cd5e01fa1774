-- ===== src/ConfiguredShrink.antt =====
-- crates/tiv-runtime/src/configured_shrink.rs: the search for a smaller schedule with the same failure.
pub mod Options
pub mod Effects
pub mod Attempts
pub mod Evaluate
pub mod Search
pub mod Finalize
pub mod Run
pub mod Verdicts
pub mod Yields
pub mod Found
pub mod Observed
pub mod Evaluated
pub mod Judged
pub mod Evaluations
pub mod Concluded
pub mod Frontier
pub mod Searched
pub mod Finalized
pub mod Finished
