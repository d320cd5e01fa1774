-- ===== src/Journal.antt =====
-- crates/tiv-runtime/src/journal.rs: the append-only journal of observations and its single writer.
pub mod Types
pub mod Writer
pub mod Chain
pub mod Runs
