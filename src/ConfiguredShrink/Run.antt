-- ===== src/ConfiguredShrink/Run.antt =====
-- crates/tiv-runtime/src/configured_shrink.rs: `run_configured_shrink_with_cancellation` from the start of
-- its deadline on.
use tx_proof.Common.{
  ℕ, ◌+◌, true, false, Option, none, some, List, length, Result, ok, err, String, ltb,
}
use tx_proof.Decision.{RandomSource}
use tx_proof.Plan.Compiler.{PlannedCase}
use tx_proof.Reproduction.{FailureIdentity}
use tx_proof.Shrink.Lineage.{ShrinkAction}
use tx_proof.Shrink.Generator.{CandidateGenerator}
use tx_proof.Trace.Materialize.{CompiledCaseTrace}
use tx_proof.ConfiguredShrink.Options.{ConfiguredShrinkOptions, source_inconclusive, ShrinkDeadline}
use tx_proof.ConfiguredShrink.Effects.{ConfiguredShrinkError, budget_expired, Environment}
use tx_proof.ConfiguredShrink.Attempts.{Attempts, matching_count}
use tx_proof.ConfiguredShrink.Evaluate.{evaluate_original}
use tx_proof.ConfiguredShrink.Search.{
  SearchState, new_search, SearchEnd, completed, failed, returned, search,
}
use tx_proof.ConfiguredShrink.Finalize.{
  ShrinkRun, run_returned, finalize_completed_shrink, finalize_failed_shrink,
}

-- The fuel of the search: each frontier but the last evaluates a candidate.
abbrev pub frontier_fuel : ConfiguredShrinkOptions → ℕ
frontier_fuel options = options.limit.value + 1

module _ {R : Type 0} (source : RandomSource R)
    (to_vec : String × PlannedCase × List ShrinkAction → List ℕ) (blake3_hash : List ℕ → List ℕ)
    {W F : Type 0} (environment : Environment W F) (configured_case_timeout : ℕ)
    (expected : FailureIdentity) (options : ConfiguredShrinkOptions)
    (original : CompiledCaseTrace) where
  abbrev pub finish : Attempts → Option (SearchEnd F × SearchState × W) → Option (ShrinkRun F × W)
  finish attempts none = none
  finish attempts (some (completed completion, state, w)) =
      some (
        finalize_completed_shrink environment expected options original completion attempts state w)
  finish attempts (some (failed cause, state, w)) = some (
      finalize_failed_shrink environment cause (length attempts.artifacts)
        (length state.evaluations) w)
  finish attempts (some (returned cause, state, w)) = some (run_returned cause, w)

  abbrev pub inconclusive_run : Attempts → W → ShrinkRun F × W
  inconclusive_run attempts w =
      finalize_completed_shrink environment expected options original source_inconclusive attempts
        new_search w

  abbrev pub after_originals :
      (Attempts → W → Option (ShrinkRun F × W))
      → Result (ConfiguredShrinkError F) Unit × Attempts × W
      → Option (ShrinkRun F × W)
  after_originals next (ok done, attempts, w) = next attempts w
  after_originals next (err budget_expired, attempts, w) = some (inconclusive_run attempts w)
  after_originals next (err cause, attempts, w) =
      some (finalize_failed_shrink environment cause (length attempts.artifacts) 0 w)

  unfoldable pub search_if_reproduced :
      CandidateGenerator → ShrinkDeadline → Attempts → W → Option (ShrinkRun F × W)
  search_if_reproduced generator deadline attempts w =
      elim (ltb (matching_count attempts.results expected) 2) [
        | true ↦ some (inconclusive_run attempts w)
        | false ↦ finish attempts (
            search source to_vec blake3_hash environment deadline configured_case_timeout expected
              options.limit.value generator (frontier_fuel options) new_search w)
      ]

  unfoldable pub run_shrink : CandidateGenerator → W → Option (ShrinkRun F × W)
  run_shrink generator w =
      let (instant, w') = environment.now w in
      let deadline : ShrinkDeadline = record { started = instant; max_time = options.max_time } in
      after_originals (search_if_reproduced generator deadline)
        (evaluate_original environment deadline configured_case_timeout expected original w')
