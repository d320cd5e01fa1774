-- ===== src/ConfiguredShrink/Finalized.antt =====
-- crates/tiv-runtime/src/configured_shrink.rs: what `finalize_completed_shrink` and
-- `finalize_failed_shrink` leave.
use tx_proof.Common.{ℕ, ◌≡◌, ◌⊎◌, inl, inr, refl, Result, ok, err, String}
use tx_proof.Reproduction.{FailureIdentity}
use tx_proof.Trace.Materialize.{CompiledCaseTrace}
use tx_proof.ConfiguredShrink.Options.{ConfiguredShrinkOptions, ConfiguredShrinkCompletion}
use tx_proof.ConfiguredShrink.Effects.{ConfiguredShrinkError, outside, Environment}
use tx_proof.ConfiguredShrink.Attempts.{Attempts}
use tx_proof.ConfiguredShrink.Search.{SearchState}
use tx_proof.ConfiguredShrink.Finalize.{
  ShrinkRun, shrunk, run_failed, partial_finalization, run_returned, is_written, after_written,
  returned_artifact, write_best, partial_summary, summarize, shrink_output,
  finalize_completed_shrink, finalize_failed_shrink,
}

-- The operation succeeded in some world.
abbrev pub HasDone : {W F A : Type 0} → (W → Result F A × W) → A → Type 0
HasDone {W = W} operation a = (w : W) × (w' : W) × (operation w ≡ (ok a, w'))

-- The operation failed in some world.
abbrev pub HasRefused : {W F A : Type 0} → (W → Result F A × W) → F → Type 0
HasRefused {W = W} operation e = (w : W) × (w' : W) × (operation w ≡ (err e, w'))

after_written-cases :
    {W F A : Type 0} (P : ShrinkRun F × W → Type 0) (refused : F → ShrinkRun F)
    (next : A → W → ShrinkRun F × W) (operation : W → Result F A × W) (w : W)
    → ((a : A) (w' : W) → HasDone operation a → P (next a w'))
    → ((e : F) (w' : W) → HasRefused operation e → P (refused e, w'))
    → P (after_written refused next (operation w))
after_written-cases P refused next operation w done not_done = by_result (operation w) refl
  where
    by_result : (result : _) → operation w ≡ result → P (after_written refused next result)
    by_result (ok a, w') h = done a w' (w, w', h)
    by_result (err e, w') h = not_done e w' (w, w', h)

module _ {W F : Type 0} (environment : Environment W F) where
  -- A failed run keeps its cause. It gives the path of the partial artifact once its summary and its
  -- report are written, and otherwise the error of the write that failed.
  abbrev pub IsFailed : ConfiguredShrinkError F → ℕ → ℕ → ShrinkRun F × W → Type 0
  IsFailed cause originals evaluations (run_failed kept path, w) =
      (kept ≡ cause)
      × HasDone
          (environment.write_partial_summary
            (partial_summary environment cause originals evaluations))
          tt
      × HasDone
          (environment.write_partial_report
            (partial_summary environment cause originals evaluations))
          tt
      × HasDone (environment.finalize_partial cause) path
  IsFailed cause originals evaluations (partial_finalization kept e, w) =
      (kept ≡ cause)
      × (HasRefused
            (environment.write_partial_summary
              (partial_summary environment cause originals evaluations))
            e
          ⊎ (HasRefused
                (environment.write_partial_report
                  (partial_summary environment cause originals evaluations))
                e
              ⊎ HasRefused (environment.finalize_partial cause) e))
  IsFailed cause originals evaluations (shrunk output, w) = ⊥
  IsFailed cause originals evaluations (run_returned e, w) = ⊥

  pub finalize_failed_shrink-IsFailed :
      (cause : ConfiguredShrinkError F) (originals evaluations : ℕ) (w : W)
      → IsFailed cause originals evaluations
          (finalize_failed_shrink environment cause originals evaluations w)
  unfolding finalize_failed_shrink
  finalize_failed_shrink-IsFailed cause originals evaluations w =
      let P = IsFailed cause originals evaluations in
      let summary = partial_summary environment cause originals evaluations in
      after_written-cases P (partial_finalization cause) _
        (environment.write_partial_summary summary) w
        (λ _ w1 summarized.
          after_written-cases P (partial_finalization cause) _
            (environment.write_partial_report summary) w1
            (λ _ w2 reported.
              after_written-cases P (partial_finalization cause) _
                (environment.finalize_partial cause) w2
                (λ path w3 finalized. (refl, summarized, reported, finalized))
                (λ e w3 no. (refl, inr (inr no))))
            (λ e w2 no. (refl, inr (inl no))))
        (λ e w1 no. (refl, inl no))

  module _ (expected : FailureIdentity) (options : ConfiguredShrinkOptions)
      (original : CompiledCaseTrace) where
    -- A completed run gives its output once the best trace, the summary and the report are written and
    -- the artifact is finalized, and otherwise returns the error of the one that failed.
    abbrev pub IsFinished :
        ConfiguredShrinkCompletion → Attempts → SearchState → ShrinkRun F × W → Type 0
    IsFinished completion attempts state (shrunk output, w) =
        (path : String) × (output
          ≡ shrink_output environment expected options original completion state path)
        × HasDone (write_best environment state.best_trace) tt
        × HasDone
            (environment.write_summary
              (summarize environment expected options original completion attempts state))
            tt
        × HasDone
            (environment.write_report
              (summarize environment expected options original completion attempts state))
            tt
        × HasDone (environment.finalize_complete completion (is_written state.best_trace)) path
    IsFinished completion attempts state (run_returned returned, w) =
        (e : F) × (returned ≡ outside e)
        × (HasRefused (write_best environment state.best_trace) e
            ⊎ (HasRefused
                  (environment.write_summary
                    (summarize environment expected options original completion attempts state))
                  e
                ⊎ (HasRefused
                      (environment.write_report
                        (summarize environment expected options original completion attempts state))
                      e
                    ⊎ HasRefused
                        (environment.finalize_complete completion (is_written state.best_trace))
                        e)))
    IsFinished completion attempts state (run_failed cause path, w) = ⊥
    IsFinished completion attempts state (partial_finalization cause e, w) = ⊥

    pub finalize_completed_shrink-IsFinished :
        (completion : ConfiguredShrinkCompletion) (attempts : Attempts) (state : SearchState)
        (w : W)
        → IsFinished completion attempts state (
            finalize_completed_shrink environment expected options original completion attempts
              state w)
    unfolding finalize_completed_shrink
    finalize_completed_shrink-IsFinished completion attempts state w =
        let P = IsFinished completion attempts state in
        let summary = summarize environment expected options original completion attempts state in
        after_written-cases P returned_artifact _ (write_best environment state.best_trace) w
          (λ _ w1 kept.
            after_written-cases P returned_artifact _ (environment.write_summary summary) w1
              (λ _ w2 summarized.
                after_written-cases P returned_artifact _ (environment.write_report summary) w2
                  (λ _ w3 reported.
                    after_written-cases P returned_artifact _
                      (environment.finalize_complete completion (is_written state.best_trace)) w3
                      (λ path w4 finalized. (path, refl, kept, summarized, reported, finalized))
                      (λ e w4 no. (e, refl, inr (inr (inr no)))))
                  (λ e w3 no. (e, refl, inr (inr (inl no)))))
              (λ e w2 no. (e, refl, inr (inl no))))
          (λ e w1 no. (e, refl, inl no))
