-- ===== src/Trace.antt =====
-- crates/tiv-core/src/trace.rs: the traces of cases and of shrink candidates.
pub mod Types
pub mod Actions
pub mod Captures
pub mod Materialize
pub mod Rebinding
pub mod Reserved
pub mod Promised
pub mod Declared
pub mod Phases
pub mod Sources
pub mod Bound
