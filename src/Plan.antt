-- ===== src/Plan.antt =====
-- crates/tiv-core/src/plan.rs: bounds, specifications, the lifecycle of a case, the planner, replay
-- and campaigns.
pub mod Types
pub mod Limits
pub mod Spec
pub mod ActionOrder
pub mod Model
pub mod Eligible
pub mod Apply
pub mod Compiler
pub mod Guards
pub mod Measure
pub mod History
pub mod Caches
pub mod Distance
pub mod Feasible
pub mod Affordable
pub mod Numbering
pub mod Planning
pub mod Compiled
pub mod Artifact
pub mod Replay
pub mod Replayed
pub mod Normalized
pub mod Campaign
pub mod Seeds
pub mod Campaigned
pub mod Defaults
pub mod Accepted
pub mod Minimum
