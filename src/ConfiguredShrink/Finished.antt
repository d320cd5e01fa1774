-- ===== src/ConfiguredShrink/Finished.antt =====
-- crates/tiv-runtime/src/configured_shrink.rs: how a run of the shrinker ends.
use tx_proof.Common.{ℕ, ◌≤◌, ◌<◌, ◌≡◌, Option, some, List, length, Result, ok, err, String}
use tx_proof.Decision.{RandomSource}
use tx_proof.Plan.Compiler.{PlannedCase}
use tx_proof.Reproduction.{FailureIdentity}
use tx_proof.Shrink.Lineage.{ShrinkAction}
use tx_proof.Shrink.Generator.{CandidateGenerator}
use tx_proof.Trace.Materialize.{CompiledCaseTrace}
use tx_proof.ConfiguredShrink.Options.{
  ConfiguredShrinkOptions, ConfiguredShrinkCompletion, source_inconclusive, ShrinkDeadline,
}
use tx_proof.ConfiguredShrink.Effects.{ConfiguredShrinkError, budget_expired, Environment}
use tx_proof.ConfiguredShrink.Attempts.{Attempts, matching_count}
use tx_proof.ConfiguredShrink.Evaluate.{evaluate_original}
use tx_proof.ConfiguredShrink.Search.{SearchState, SearchEnd, completed, failed, new_search, search}
use tx_proof.ConfiguredShrink.Finalize.{ShrinkRun}
use tx_proof.ConfiguredShrink.Run.{frontier_fuel}
use tx_proof.ConfiguredShrink.Searched.{Searched}
use tx_proof.ConfiguredShrink.Finalized.{IsFailed, IsFinished}

module _ {R : Type 0} (source : RandomSource R)
    (to_vec : String × PlannedCase × List ShrinkAction → List ℕ) (blake3_hash : List ℕ → List ℕ)
    {W F : Type 0} (environment : Environment W F) (configured_case_timeout : ℕ)
    (expected : FailureIdentity) (options : ConfiguredShrinkOptions)
    (original : CompiledCaseTrace) where
  -- The deadline of a run that starts in this world.
  abbrev pub deadline_of : W → ShrinkDeadline
  deadline_of w = record { started = (environment.now w).0; max_time = options.max_time }

  -- What the attempts at the original leave, with the result of the loop over them.
  abbrev pub Originals : W → Result (ConfiguredShrinkError F) Unit → Attempts → Type 0
  Originals w result attempts =
      (w' : W) × (evaluate_original environment (deadline_of w) configured_case_timeout expected
          original (environment.now w).1
        ≡ (result, attempts, w'))

  -- The search that starts with nothing evaluated ended so.
  abbrev pub SearchedFrom : W → CandidateGenerator → SearchEnd F → SearchState → Type 0
  SearchedFrom w generator end state =
      (w1 : W) × (w2 : W) × (search source to_vec blake3_hash environment (deadline_of w)
          configured_case_timeout expected options.limit.value generator (frontier_fuel options)
          new_search w1
        ≡ some (end, state, w2))
      × Searched source to_vec blake3_hash environment (deadline_of w) configured_case_timeout
          expected options.limit.value generator (end, state, w2)

  -- How a run from this world ends. Without two attempts that found the failure again, or without the
  -- time to make them, nothing is searched.
  pub data IsRun (w : W) (generator : CandidateGenerator) : ShrinkRun F × W → Type 0 where
    few_matches :
        (attempts : Attempts) (run : ShrinkRun F × W)
        → Originals w (ok tt) attempts
        → matching_count attempts.results expected < 2
        → IsFinished environment expected options original source_inconclusive attempts new_search
            run
        → IsRun w generator run
    timed_out :
        (attempts : Attempts) (run : ShrinkRun F × W)
        → Originals w (err budget_expired) attempts
        → IsFinished environment expected options original source_inconclusive attempts new_search
            run
        → IsRun w generator run
    originals_failed :
        (attempts : Attempts) (cause : ConfiguredShrinkError F) (run : ShrinkRun F × W)
        → Originals w (err cause) attempts
        → IsFailed environment cause (length attempts.artifacts) 0 run
        → IsRun w generator run
    search_completed :
        (attempts : Attempts) (completion : ConfiguredShrinkCompletion) (state : SearchState)
        (run : ShrinkRun F × W)
        → Originals w (ok tt) attempts
        → 2 ≤ matching_count attempts.results expected
        → SearchedFrom w generator (completed completion) state
        → IsFinished environment expected options original completion attempts state run
        → IsRun w generator run
    search_failed :
        (attempts : Attempts) (cause : ConfiguredShrinkError F) (state : SearchState)
        (run : ShrinkRun F × W)
        → Originals w (ok tt) attempts
        → 2 ≤ matching_count attempts.results expected
        → SearchedFrom w generator (failed cause) state
        → IsFailed environment cause (length attempts.artifacts) (length state.evaluations) run
        → IsRun w generator run

  -- Some run ends so.
  abbrev pub EndsRun : W → CandidateGenerator → Option (ShrinkRun F × W) → Type 0
  EndsRun w generator outcome =
      (run : ShrinkRun F × W) × (outcome ≡ some run) × IsRun w generator run
