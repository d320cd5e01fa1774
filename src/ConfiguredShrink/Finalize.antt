-- ===== src/ConfiguredShrink/Finalize.antt =====
-- crates/tiv-runtime/src/configured_shrink.rs: `finalize_completed_shrink` and `finalize_failed_shrink`,
-- each write of which can fail.
use tx_proof.Common.{
  ℕ, ◌-◌, ◌/◌, ◌^◌, min, Bool, true, false, Option, none, some, length, Result, ok, err, String,
}
use tx_proof.Reproduction.{FailureIdentity}
use tx_proof.Trace.Materialize.{CompiledCaseTrace, CompiledShrinkTrace}
use tx_proof.ConfiguredShrink.Options.{ConfiguredShrinkOptions, ConfiguredShrinkCompletion}
use tx_proof.ConfiguredShrink.Effects.{
  ConfiguredShrinkError, outside, ShrinkSummary, PartialShrinkSummary, Environment,
}
use tx_proof.ConfiguredShrink.Attempts.{Attempts, matching_count}
use tx_proof.ConfiguredShrink.Search.{SearchState}

-- `ConfiguredShrinkOutput`, less what names the run and its source.
pub record ConfiguredShrinkOutput : Type 0 where
  pub completion : ConfiguredShrinkCompletion
  pub evaluated_candidates : ℕ
  pub accepted_candidates : ℕ
  pub original_action_count : ℕ
  pub best_action_count : ℕ
  pub artifact_path : String

-- What a run gives: its output, or the error `RunFailed` with the path of the partial artifact,
-- `PartialFinalization` with the error of writing that artifact, or one that `?` returns.
pub data ShrinkRun (F : Type 0) : Type 0 where
  shrunk : ConfiguredShrinkOutput → ShrinkRun F
  run_failed : ConfiguredShrinkError F → String → ShrinkRun F
  partial_finalization : ConfiguredShrinkError F → F → ShrinkRun F
  run_returned : ConfiguredShrinkError F → ShrinkRun F

abbrev pub best_count : ℕ → Option CompiledShrinkTrace → ℕ
best_count original none = original
best_count original (some trace) = length trace.actions

abbrev pub is_written : Option CompiledShrinkTrace → Bool
is_written none = false
is_written (some trace) = true

-- The next step of a finalization, or the error that a failed one is turned into.
abbrev pub after_written :
    {W F A : Type 0}
    → (F → ShrinkRun F)
    → (A → W → ShrinkRun F × W)
    → Result F A × W
    → ShrinkRun F × W
after_written refused next (ok a, w) = next a w
after_written refused next (err e, w) = (refused e, w)

-- The operator `?` on a result of the artifacts.
abbrev pub returned_artifact : {F : Type 0} → F → ShrinkRun F
returned_artifact e = run_returned (outside e)

module _ {W F : Type 0} (environment : Environment W F) where
  abbrev pub write_best : Option CompiledShrinkTrace → W → Result F Unit × W
  write_best none w = (ok tt, w)
  write_best (some trace) w = environment.write_minimized trace w

  abbrev pub partial_summary : ConfiguredShrinkError F → ℕ → ℕ → PartialShrinkSummary F
  partial_summary cause originals evaluations = record {
    cause = cause;
    completed_original_attempts = originals;
    completed_candidate_evaluations = evaluations;
  }

  unfoldable pub finalize_failed_shrink : ConfiguredShrinkError F → ℕ → ℕ → W → ShrinkRun F × W
  finalize_failed_shrink cause originals evaluations w =
      let summary = partial_summary cause originals evaluations in
      after_written (partial_finalization cause)
        (λ _ w1.
          after_written (partial_finalization cause)
            (λ _ w2.
              after_written (partial_finalization cause) (λ path w3. (run_failed cause path, w3))
                (environment.finalize_partial cause w2))
            (environment.write_partial_report summary w1))
        (environment.write_partial_summary summary w)

  module _ (expected : FailureIdentity) (options : ConfiguredShrinkOptions)
      (original : CompiledCaseTrace) where
    abbrev pub summarize : ConfiguredShrinkCompletion → Attempts → SearchState → ShrinkSummary
    summarize completion attempts state = record {
      completion = completion;
      candidate_limit = options.limit.value;
      max_time_milliseconds = min (options.max_time / 1000000) (2 ^ 64 - 1);
      original_attempt_count = length attempts.artifacts;
      original_matching_failure_count = matching_count attempts.results expected;
      evaluated_candidates = length state.evaluations;
      cache_hits = state.cache_hits;
      accepted_candidates = state.accepted_candidates;
      original_action_count = length original.actions;
      best_action_count = best_count (length original.actions) state.best_trace;
      minimized_trace_written = is_written state.best_trace;
      original_attempts = attempts.artifacts;
      candidates = state.evaluations;
    }

    abbrev pub shrink_output :
        ConfiguredShrinkCompletion → SearchState → String → ConfiguredShrinkOutput
    shrink_output completion state path = record {
      completion = completion;
      evaluated_candidates = length state.evaluations;
      accepted_candidates = state.accepted_candidates;
      original_action_count = length original.actions;
      best_action_count = best_count (length original.actions) state.best_trace;
      artifact_path = path;
    }

    unfoldable pub finalize_completed_shrink :
        ConfiguredShrinkCompletion → Attempts → SearchState → W → ShrinkRun F × W
    finalize_completed_shrink completion attempts state w =
        let summary = summarize completion attempts state in
        after_written returned_artifact
          (λ _ w1.
            after_written returned_artifact
              (λ _ w2.
                after_written returned_artifact
                  (λ _ w3.
                    after_written returned_artifact
                      (λ path w4. (shrunk (shrink_output completion state path), w4))
                      (environment.finalize_complete completion (is_written state.best_trace) w3))
                  (environment.write_report summary w2))
              (environment.write_summary summary w1))
          (write_best state.best_trace w)
