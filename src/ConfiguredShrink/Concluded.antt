-- ===== src/ConfiguredShrink/Concluded.antt =====
-- crates/tiv-runtime/src/configured_shrink.rs: one candidate of a frontier.
use tx_proof.Common.{
  ℕ, ◌≤◌, ◌<◌, ◌≡◌, ◌⊎◌, inl, inr, refl, ap, sym, subst, arith, Bool, true, false, none, some, List,
  length, Result, ok, err, String, ◌==◌, Bool-cases, Option-cases, length-append_one, lookup,
  Member, Member-append_right, Member-append_left, [], ◌∷◌,
}
use tx_proof.Decision.{RandomSource}
use tx_proof.Plan.Compiler.{PlannedCase}
use tx_proof.Reproduction.{FailureIdentity}
use tx_proof.Shrink.Lineage.{ShrinkAction}
use tx_proof.Shrink.Candidate.{ShrinkCandidate}
use tx_proof.Shrink.Generator.{
  CandidateGenerator, canonical_identity, current_complexity, identity_discrete,
}
use tx_proof.Shrink.Progress.{IsNext}
use tx_proof.ConfiguredShrink.Options.{ShrinkDeadline}
use tx_proof.ConfiguredShrink.Effects.{
  ConfiguredShrinkError, candidate, original_trace_diverged, candidate_trace_diverged,
  attempt_accounting, budget_expired, interrupted, outside, unreachable, Environment, is_exhausted,
  CandidateEvaluationArtifact,
}
use tx_proof.ConfiguredShrink.Evaluate.{CandidateEvaluation, evaluate_candidate}
use tx_proof.ConfiguredShrink.Search.{
  SearchState, candidate_accepted, budget_ended, frontier_rejected, evaluation_failed, Considered,
  next_candidate, stop, after_evaluation, conclude, within_budget, consider, record_evaluation,
  saturating_increment,
}
use tx_proof.ConfiguredShrink.Evaluated.{IsEvaluation, evaluate_candidate-IsEvaluation}
use tx_proof.ConfiguredShrink.Evaluations.{IsSearch, record-IsSearch}

-- The evaluations of the first state are among those of the second one.
abbrev pub Keeps : SearchState → SearchState → Type 0
Keeps state state' =
    (e : CandidateEvaluationArtifact) → Member e state.evaluations → Member e state'.evaluations

-- A candidate of this identity was evaluated.
abbrev pub WasEvaluated : (ShrinkCandidate → List ℕ) → SearchState → ShrinkCandidate → Type 0
WasEvaluated identity state c =
    (e : CandidateEvaluationArtifact) × Member e state.evaluations × (e.candidate_id ≡ identity c)

module _ {R : Type 0} (source : RandomSource R)
    (to_vec : String × PlannedCase × List ShrinkAction → List ℕ) (blake3_hash : List ℕ → List ℕ)
    {W F : Type 0} (environment : Environment W F) (deadline : ShrinkDeadline)
    (configured_case_timeout : ℕ) (expected : FailureIdentity) (limit : ℕ)
    (generator : CandidateGenerator) where
  -- An evaluation failed with this error.
  abbrev pub HasFailed : ConfiguredShrinkError F → Type 0
  HasFailed cause =
      (c : ShrinkCandidate) × (w : W) × (w' : W) × (evaluate_candidate environment deadline
          configured_case_timeout expected to_vec blake3_hash c w
        ≡ (err cause, w'))

  -- The limit was reached, the deadline had passed, or an evaluation ran out of time.
  abbrev pub IsSpent : SearchState → Type 0
  IsSpent state =
      (length state.evaluations ≡ limit)
      ⊎ (((w : W) × ((is_exhausted environment deadline w).0 ≡ true)) ⊎ HasFailed budget_expired)

  -- What one candidate leaves, by how it is concluded.
  abbrev pub Concluded : SearchState → ShrinkCandidate → Considered F × SearchState × W → Type 0
  Concluded state c (next_candidate, state', w) =
      IsSearch source to_vec blake3_hash environment expected generator limit state'
      × (state'.best ≡ state.best)
      × WasEvaluated (canonical_identity to_vec blake3_hash) state' c
      × Keeps state state'
      × (length state.evaluations ≤ length state'.evaluations)
  Concluded state c (stop candidate_accepted, state', w) =
      IsSearch source to_vec blake3_hash environment expected generator limit state'
      × (length state.evaluations < length state'.evaluations)
  Concluded state c (stop frontier_rejected, state', w) = ⊥
  Concluded state c (stop budget_ended, state', w) =
      IsSearch source to_vec blake3_hash environment expected generator limit state'
      × IsSpent state'
  Concluded state c (stop (evaluation_failed e), state', w) =
      IsSearch source to_vec blake3_hash environment expected generator limit state' × HasFailed e

  module _ (state : SearchState) (c : ShrinkCandidate)
      (now : IsSearch source to_vec blake3_hash environment expected generator limit state)
      (next : IsNext source generator.source (current_complexity generator state.best) c)
      (fresh : lookup identity_discrete state.cache (canonical_identity to_vec blake3_hash c)
        ≡ none)
      (room : length state.evaluations < limit) where
    by_accepted :
        (accepted : Bool) (state' : SearchState) (w : W)
        → IsSearch source to_vec blake3_hash environment expected generator limit state'
        → (accepted ≡ false → state'.best ≡ state.best)
        → WasEvaluated (canonical_identity to_vec blake3_hash) state' c
        → Keeps state state'
        → length state.evaluations < length state'.evaluations
        → Concluded state c (after_evaluation accepted, state', w)
    by_accepted true state' w kept best seen keeps longer = (kept, longer)
    by_accepted false state' w kept best seen keeps longer =
        (kept, best refl, seen, keeps, omega arith)

    evaluated-Concluded :
        (evaluation : CandidateEvaluation) (w : W)
        → IsEvaluation environment expected (canonical_identity to_vec blake3_hash) c evaluation
        → Concluded state c (
            conclude source to_vec blake3_hash environment deadline configured_case_timeout expected
              limit c state
              (ok evaluation, w))
    evaluated-Concluded evaluation w evaluated =
        let longer = length-append_one state.evaluations evaluation.artifact in
        by_accepted evaluation.artifact.accepted
          (record_evaluation to_vec blake3_hash c evaluation state) w
          (record-IsSearch source to_vec blake3_hash environment expected generator limit state c
            evaluation now next evaluated fresh room)
          (λ e. rw e refl)
          (
            evaluation.artifact,
            Member-append_right evaluation.artifact state.evaluations (evaluation.artifact ∷ [])
                (inl refl),
            evaluated.identified,
          )
          (λ e m. Member-append_left e state.evaluations (evaluation.artifact ∷ []) m) (omega arith)

    conclude-Concluded :
        (w : W) (result : Result (ConfiguredShrinkError F) CandidateEvaluation × W)
        → evaluate_candidate environment deadline configured_case_timeout expected to_vec
            blake3_hash c w
          ≡ result
        → Concluded state c (
            conclude source to_vec blake3_hash environment deadline configured_case_timeout expected
              limit c state result)
    conclude-Concluded w (ok e, w') h = evaluated-Concluded e w' (
        evaluate_candidate-IsEvaluation environment deadline configured_case_timeout expected to_vec
          blake3_hash c w e w' h)
    conclude-Concluded w (err budget_expired, w') h = (now, inr (inr (c, w, w', h)))
    conclude-Concluded w (err (candidate _), w') h = (now, (c, w, w', h))
    conclude-Concluded w (err (original_trace_diverged _), w') h = (now, (c, w, w', h))
    conclude-Concluded w (err (candidate_trace_diverged _ _), w') h = (now, (c, w, w', h))
    conclude-Concluded w (err attempt_accounting, w') h = (now, (c, w, w', h))
    conclude-Concluded w (err interrupted, w') h = (now, (c, w, w', h))
    conclude-Concluded w (err (outside _), w') h = (now, (c, w, w', h))
    conclude-Concluded w (err unreachable, w') h = (now, (c, w, w', h))

  consider-cached :
      (state : SearchState) (c : ShrinkCandidate) (w : W) (accepted : Bool)
      → lookup identity_discrete state.cache (canonical_identity to_vec blake3_hash c)
        ≡ some accepted
      → consider source to_vec blake3_hash environment deadline configured_case_timeout expected
          limit c state w
        ≡ (next_candidate, record state { cache_hits = saturating_increment state.cache_hits }, w)
  unfolding consider
  consider-cached state c w accepted e = rw (e, consider) refl

  consider-full :
      (state : SearchState) (c : ShrinkCandidate) (w : W)
      → lookup identity_discrete state.cache (canonical_identity to_vec blake3_hash c) ≡ none
      → (length state.evaluations == limit) ≡ true
      → consider source to_vec blake3_hash environment deadline configured_case_timeout expected
          limit c state w
        ≡ (stop budget_ended, state, w)
  unfolding consider
  consider-full state c w e full = rw (e, full, consider) refl

  consider-fresh :
      (state : SearchState) (c : ShrinkCandidate) (w : W)
      → lookup identity_discrete state.cache (canonical_identity to_vec blake3_hash c) ≡ none
      → (length state.evaluations == limit) ≡ false
      → consider source to_vec blake3_hash environment deadline configured_case_timeout expected
          limit c state w
        ≡ within_budget source to_vec blake3_hash environment deadline configured_case_timeout
            expected limit c state
            (is_exhausted environment deadline w)
  unfolding consider
  consider-fresh state c w e room = rw (e, room, consider) refl

  within_budget-Concluded :
      (state : SearchState) (c : ShrinkCandidate) (w : W) (exhausted : Bool × W)
      → is_exhausted environment deadline w ≡ exhausted
      → IsSearch source to_vec blake3_hash environment expected generator limit state
      → IsNext source generator.source (current_complexity generator state.best) c
      → lookup identity_discrete state.cache (canonical_identity to_vec blake3_hash c) ≡ none
      → length state.evaluations < limit
      → Concluded state c (
          within_budget source to_vec blake3_hash environment deadline configured_case_timeout
            expected limit c state exhausted)
  within_budget-Concluded state c w (true, w') passed now next fresh room =
      (now, inr (inl (w, ap (λ exhausted. exhausted.0) passed)))
  within_budget-Concluded state c w (false, w') passed now next fresh room =
      conclude-Concluded state c now next fresh room w' _ refl

  full_limit : (n : ℕ) → (n == limit) ≡ true → n ≡ limit
  full_limit n h = ground arith

  pub consider-Concluded :
      (state : SearchState) (c : ShrinkCandidate) (w : W)
      → IsSearch source to_vec blake3_hash environment expected generator limit state
      → IsNext source generator.source (current_complexity generator state.best) c
      → Concluded state c (
          consider source to_vec blake3_hash environment deadline configured_case_timeout expected
            limit c state w)
  consider-Concluded state c w now next =
      elim (Option-cases
        (lookup identity_discrete state.cache (canonical_identity to_vec blake3_hash c))) [
          | inr (accepted, e) ↦
              subst (Concluded state c) (sym (consider-cached state c w accepted e)) (
                (
                  hit-IsSearch state now,
                  refl,
                  seen state c accepted now e,
                  (λ _ h. h),
                  omega arith,
                ))
          | inl e ↦ elim (Bool-cases (length state.evaluations == limit)) [
            | inl full ↦
                subst (Concluded state c) (sym (consider-full state c w e full))
                  ((now, inl (full_limit (length state.evaluations) full)))
            | inr room ↦ subst (Concluded state c) (sym (consider-fresh state c w e room)) (
                within_budget-Concluded state c w _ refl now next e
                  (let within = now.within in ground arith))
          ]
        ]
    where
      hit-IsSearch :
          (state : SearchState)
          → IsSearch source to_vec blake3_hash environment expected generator limit state
          → IsSearch source to_vec blake3_hash environment expected generator limit
              (record state { cache_hits = saturating_increment state.cache_hits })
      hit-IsSearch state now = record {
        within = now.within;
        accepts = now.accepts;
        cached = now.cached;
        backed = now.backed;
        distinct = now.distinct;
        judged = now.judged;
        reproduced = now.reproduced;
        least = now.least;
      }

      seen :
          (state : SearchState) (c : ShrinkCandidate) (accepted : Bool)
          → IsSearch source to_vec blake3_hash environment expected generator limit state
          → lookup identity_discrete state.cache (canonical_identity to_vec blake3_hash c)
            ≡ some accepted
          → WasEvaluated (canonical_identity to_vec blake3_hash) state c
      seen state c accepted now h =
          let (e, m, of, same) = now.backed (canonical_identity to_vec blake3_hash c) accepted h in
          (e, m, of)
