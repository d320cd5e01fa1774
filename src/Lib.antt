-- ===== src/Lib.antt =====
-- TxProof tests backends that move money: it compiles campaigns of cases, each a schedule of provider
-- faults, webhook faults and process kills, runs them against an application and a simulated payment
-- provider, and classifies, replays and shrinks the failures it finds. The parts modelled are the pure
-- core (crates/tiv-core), the state of the simulated provider (crates/tiv-stripe-pi), the journal of a
-- run and the search for a smaller failing schedule (crates/tiv-runtime/src/journal.rs,
-- configured_shrink.rs).
--
-- Common and its modules hold the shared names, tests, lists, results, tables and bytes. Order is the
-- bound `T: Ord`. Decision is crates/tiv-core/src/decision.rs: the sorted and deduplicated choice, over a
-- generator that is a parameter (`rand_chacha`). Plan is crates/tiv-core/src/plan.rs:
--   Types, Limits, Spec, Defaults   the enums, bounded numbers and specifications, and their validation
--   ActionOrder                     the derived order of `PlanActionKind`
--   Model, Eligible, Apply          `ModelState`, `eligible_actions`, `apply_action` and their helpers
--   Minimum                         `minimum_actions_to_complete` with its cache as a function
--   Compiler, Artifact              `CasePlanCompiler` and `PlannedCase::validate`
--   Replay                          `validate_replay_action_kinds`, `normalize_replay_action_kinds`
--   Campaign                        `CampaignSpec`, `CampaignPlanner` and `CampaignPlan::validate`
-- and beside them, one file for each subject, what is proved: Guards, Measure, History, Caches, Distance,
-- Feasible, Affordable, Numbering, Planning, Compiled, Replayed, Normalized, Seeds, Campaigned, Accepted.
-- A history is a list of actions, each offered in the state where it is taken; Completes says that one
-- ends at the checkpoint. It is the description the search, the compiler and the replays are held to.
-- Reproduction is crates/tiv-core/src/result.rs. Fixture is crates/tiv-stripe-pi/src/lib.rs: Types and
-- Wire hold the objects and what is encoded, Provider the creates of `PaymentIntentFixture` and Confirm
-- its confirmations, events and lookups; Extends, Runs, Replays, Retries, Consistent, Ready, Kept, Found
-- and Snapshots hold what is proved of sequences of operations. A method with `&mut self` returns its
-- result beside the state it leaves, also where it fails. Managed is `ManagedFixture` of the same file,
-- the fixture under the control plane: State, Gates (the fault plan and the webhook gates) and Commands
-- (what takes a number of the command sequence), with Sequence, Waiters, Gated and Waiting for what is
-- proved. The signal that a waiter and a map share is a store by the gate's identifier.
--
-- Shrink is crates/tiv-core/src/shrink.rs:
--   Complexity, Lineage, Simplify   `ShrinkComplexity`, the relation of two schedules, simpler actions
--   Chunks                          `hierarchical_chunk_sizes`
--   Candidate                       `ShrinkCandidate::materialize` and `validate`
--   Proposals, Generator            the loops of `candidate_batch`, and `CandidateGenerator`
-- with what is proved in Simplifications, Batches, Lineages, Materialized, Progress, Rank and Rounds. Ids
-- is crates/tiv-core/src/ids.rs. Trace is crates/tiv-core/src/trace.rs: Types, Actions and Captures hold
-- what the actions of a case consume and capture, Materialize the materializers of cases and of
-- candidates and what reads a trace back; Rebinding, Bound, Reserved, Promised, Phases, Declared and
-- Sources hold what is proved. Journal is crates/tiv-runtime/src/journal.rs: Types the records and their
-- limits, Writer `build_record` and the loop of the writer, Chain and Runs what is proved of the records
-- that it accepts. ConfiguredShrink is crates/tiv-runtime/src/configured_shrink.rs, with `attempt_result`
-- of configured_replay.rs beside it:
--   Options, Effects                the budgets, the deadline, the errors and the environment of a search
--   Attempts, Evaluate              an attempt, `evaluate_original` and `evaluate_candidate`
--   Search                          the loop `'search`
--   Finalize, Run                   what a run is finalized with, and the run from its deadline on
-- with what is proved in Verdicts, Yields, Found, Observed, Evaluated, Judged, Evaluations, Concluded,
-- Frontier, Searched, Finalized and Finished. What an attempt observes, the clock, the cancellation and
-- the evidence are the fields of `Environment`, over a state of the world that is a parameter. The search
-- takes its frontiers from the generator of Shrink, compares traces as Trace does and counts failures as
-- Reproduction does.
--
-- Examples has tests and concrete inputs. The compiler uses the decision engine for every choice, and
-- campaigns use the compiler with a seed derived for each case. Shrinking starts from a compiled case and
-- holds every candidate to the replay of plans; a trace takes the actions of a case or of a candidate.
--
-- `u8` counters keep their checked and saturating sums, `u64` sequences their wrap-around. A `BTreeSet`
-- is the list of its elements. `minimum_actions_to_complete` has 2000 units of fuel, above the measure of
-- every state within the bounds of v1; the compiler's loop has one unit for each action of the budget and
-- one for the last test. The loop of the chunk sizes has one unit for each action of the source, the
-- search one for each candidate of its limit and one more, since every frontier but the last evaluates a
-- candidate. The writer of the journal runs over the requests in the order of its channel, each with the
-- outcome of its durable write; one that fails has left some bytes of its line in the file.
-- `random_range`, `blake3`, `serde_json` and the clock are parameters. `PlannedCase` and `CampaignPlan`
-- are compared as values. Not modelled: the serde encodings, webhook signatures (`confirm_all`,
-- `sign_event`), `PlannedTrace::compile` with the two-action traces and the views of a trace by action,
-- the channel of the journal, what prepares a search and the text of its reports, the HTTP adapters, and
-- the rest of the runtime, which drives processes and PostgreSQL: its decisions stand between calls of
-- these, and are left out with them.
pub mod Common
pub mod Order
pub mod Decision
pub mod Plan
pub mod Reproduction
pub mod Fixture
pub mod Managed
pub mod Shrink
pub mod Ids
pub mod Trace
pub mod Journal
pub mod ConfiguredShrink
pub mod Examples
