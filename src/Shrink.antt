-- ===== src/Shrink.antt =====
-- crates/tiv-core/src/shrink.rs: smaller schedules that may fail in the same way.
pub mod Complexity
pub mod Lineage
pub mod Simplifications
pub mod Simplify
pub mod Chunks
pub mod Candidate
pub mod Proposals
pub mod Generator
pub mod Batches
pub mod Lineages
pub mod Materialized
pub mod Progress
pub mod Rank
pub mod Rounds
