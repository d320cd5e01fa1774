-- ===== src/ConfiguredShrink/Evaluations.antt =====
-- crates/tiv-runtime/src/configured_shrink.rs: what the loop `'search` keeps.
use tx_proof.Common.{
  ℕ, ◌≤◌, ◌<◌, ◌≡◌, inl, inr, refl, sym, ap, ◌∙◌, arith, Bool, true, false, Option, none, some,
  List, [], ◌∷◌, ◌++◌, length, String, All, All-append, Member-append_right, Member-append_left,
  if◌then◌else◌, length-append_one, lookup, insert_entry, lookup-insert_same, lookup-insert_new,
  lookup-insert_cases,
}
use tx_proof.Decision.{RandomSource}
use tx_proof.Plan.Compiler.{PlannedCase}
use tx_proof.Shrink.Lineage.{ShrinkAction}
use tx_proof.Shrink.Candidate.{ShrinkCandidate, entry_kinds}
use tx_proof.Shrink.Generator.{
  CandidateGenerator, candidate_complexity, canonical_identity, current_complexity,
  identity_discrete,
}
use tx_proof.Shrink.Progress.{IsNext, HaveDistinct, HaveDistinct-snoc}
use tx_proof.Shrink.Rank.{rank, complexity-rank}
use tx_proof.Shrink.Rounds.{Accepts}
use tx_proof.Reproduction.{FailureIdentity}
use tx_proof.Trace.Materialize.{CompiledShrinkTrace}
use tx_proof.ConfiguredShrink.Effects.{CandidateEvaluationArtifact, Environment}
use tx_proof.ConfiguredShrink.Evaluate.{CandidateEvaluation}
use tx_proof.ConfiguredShrink.Search.{SearchState, record_evaluation}
use tx_proof.ConfiguredShrink.Evaluated.{IsEvaluation}
use tx_proof.ConfiguredShrink.Judged.{
  All-weaken, chosen, IsEvaluated, IsBacked, IsReproduced, IsLeast,
}

module _ {R : Type 0} (source : RandomSource R)
    (to_vec : String × PlannedCase × List ShrinkAction → List ℕ) (blake3_hash : List ℕ → List ℕ)
    {W F : Type 0} (environment : Environment W F) (expected : FailureIdentity)
    (generator : CandidateGenerator) (limit : ℕ) where
  pub record IsSearch (state : SearchState) : Type 0 where
    pub within : length state.evaluations ≤ limit
    pub accepts : Accepts source generator state.best
    pub cached :
        All
          (λ e. lookup identity_discrete state.cache e.candidate_id ≡ some e.accepted)
          state.evaluations
    pub distinct : HaveDistinct (λ e. e.candidate_id) state.evaluations
    pub backed :
        (id : List ℕ) (accepted : Bool)
        → lookup identity_discrete state.cache id ≡ some accepted
        → IsBacked state.evaluations id accepted
    pub judged :
        All
          (IsEvaluated environment expected (canonical_identity to_vec blake3_hash))
          state.evaluations
    pub reproduced :
        IsReproduced environment expected
          (canonical_identity to_vec blake3_hash)
          state.evaluations
          state.best_trace
          state.best
    pub least : All (IsLeast (rank (current_complexity generator state.best))) state.evaluations

  reproduced-append :
      (evaluations : List CandidateEvaluationArtifact) (e : CandidateEvaluationArtifact)
      (best_trace : Option CompiledShrinkTrace) (best : Option ShrinkCandidate)
      → IsReproduced environment expected
          (canonical_identity to_vec blake3_hash)
          evaluations
          best_trace
          best
      → IsReproduced environment expected
          (canonical_identity to_vec blake3_hash)
          (evaluations ++ e ∷ [])
          best_trace
          best
  reproduced-append evaluations e best_trace none h = h
  reproduced-append evaluations e best_trace (some c) (evaluation, of, m, same, two) =
      (evaluation, of, Member-append_left evaluation.artifact evaluations (e ∷ []) m, same, two)

  IsBacked-append :
      (evaluations : List CandidateEvaluationArtifact) (e : CandidateEvaluationArtifact)
      (id : List ℕ) (accepted : Bool)
      → IsBacked evaluations id accepted
      → IsBacked (evaluations ++ e ∷ []) id accepted
  IsBacked-append evaluations e id accepted (e', m, of, same) =
      (e', Member-append_left e' evaluations (e ∷ []) m, of, same)

  module _ (state : SearchState) (c : ShrinkCandidate) (evaluation : CandidateEvaluation)
      (now : IsSearch state)
      (next : IsNext source generator.source (current_complexity generator state.best) c)
      (evaluated : IsEvaluation environment expected
        (canonical_identity to_vec blake3_hash)
        c
        evaluation)
      (fresh : lookup identity_discrete state.cache (canonical_identity to_vec blake3_hash c)
        ≡ none) where
    still_cached :
        All
          (λ e'.
            lookup identity_discrete
              (insert_entry identity_discrete state.cache
                (canonical_identity to_vec blake3_hash c)
                evaluation.artifact.accepted)
              e'.candidate_id
            ≡ some e'.accepted)
          (state.evaluations ++ evaluation.artifact ∷ [])
    still_cached =
        All-append _ state.evaluations (evaluation.artifact ∷ [])
          (All-weaken _ _ state.evaluations
            (λ e' h.
              lookup-insert_new identity_discrete state.cache e'.candidate_id
                (canonical_identity to_vec blake3_hash c) e'.accepted evaluation.artifact.accepted
                fresh h)
            now.cached)
          ((
            rw (evaluated.identified) (
                lookup-insert_same identity_discrete state.cache
                  (canonical_identity to_vec blake3_hash c) evaluation.artifact.accepted),
            tt,
          ))

    still_distinct :
        HaveDistinct (λ e'. e'.candidate_id) (state.evaluations ++ evaluation.artifact ∷ [])
    still_distinct =
        HaveDistinct-snoc (λ e'. e'.candidate_id) state.evaluations evaluation.artifact now.distinct
          (All-weaken _ _ state.evaluations
            (λ e' h same.
              let id = evaluated.identified in
              let q : e'.candidate_id ≡ canonical_identity to_vec blake3_hash c = same ∙ id in
              let there : lookup identity_discrete state.cache e'.candidate_id ≡ none =
                rw q fresh in
              cc)
            now.cached)

    simpler_rank : rank (candidate_complexity c) < rank (current_complexity generator state.best)
    simpler_rank =
        let (valid, of, simpler) = next in
        complexity-rank (entry_kinds c.schedule) (current_complexity generator state.best) simpler

    now-IsBacked :
        (id : List ℕ) (accepted : Bool)
        → lookup identity_discrete
            (insert_entry identity_discrete state.cache
              (canonical_identity to_vec blake3_hash c)
              evaluation.artifact.accepted)
            id
          ≡ some accepted
        → IsBacked (state.evaluations ++ evaluation.artifact ∷ []) id accepted
    now-IsBacked id accepted h =
        elim (lookup-insert_cases identity_discrete state.cache id
          (canonical_identity to_vec blake3_hash c) evaluation.artifact.accepted) [
            | inl (same, there) ↦ (
              evaluation.artifact,
              Member-append_right evaluation.artifact state.evaluations (evaluation.artifact ∷ [])
                  (inl refl),
              evaluated.identified ∙ sym same,
              ground arith,
            )
            | inr (differs, there) ↦
                IsBacked-append state.evaluations evaluation.artifact id accepted
                  (now.backed id accepted (sym there ∙ h))
          ]

    now_reproduced :
        evaluation.artifact.accepted ≡ true
        → IsReproduced environment expected
            (canonical_identity to_vec blake3_hash)
            (state.evaluations ++ evaluation.artifact ∷ [])
            (some evaluation.authority)
            (some c)
    now_reproduced h = (
      evaluation,
      evaluated,
      Member-append_right evaluation.artifact state.evaluations (evaluation.artifact ∷ [])
          (inl refl),
      ap some evaluated.authority,
      let judged = evaluated.judged in ground arith,
    )

    now_least :
        All
          (IsLeast (rank (candidate_complexity c)))
          (state.evaluations ++ evaluation.artifact ∷ [])
    now_least =
        All-append _ state.evaluations (evaluation.artifact ∷ [])
          (All-weaken _ _ state.evaluations
            (λ e' h accepted. let less = h accepted in let falls = simpler_rank in omega arith)
            now.least)
          ((λ accepted. rw (evaluated.measured) (omega arith), tt))

    still_least :
        evaluation.artifact.accepted ≡ false
        → All
            (IsLeast (rank (current_complexity generator state.best)))
            (state.evaluations ++ evaluation.artifact ∷ [])
    still_least h =
        All-append _ state.evaluations (evaluation.artifact ∷ []) now.least
          ((λ accepted. absurd (cc), tt))

    now_judged :
        All
          (IsEvaluated environment expected (canonical_identity to_vec blake3_hash))
          (state.evaluations ++ evaluation.artifact ∷ [])
    now_judged =
        All-append _ state.evaluations (evaluation.artifact ∷ []) now.judged
          ((c, evaluation, evaluated, refl), tt)

  -- An evaluation of the next candidate, which no evaluation is of, is recorded.
  pub record-IsSearch :
      (state : SearchState) (c : ShrinkCandidate) (evaluation : CandidateEvaluation)
      → IsSearch state
      → IsNext source generator.source (current_complexity generator state.best) c
      → IsEvaluation environment expected (canonical_identity to_vec blake3_hash) c evaluation
      → lookup identity_discrete state.cache (canonical_identity to_vec blake3_hash c) ≡ none
      → length state.evaluations < limit
      → IsSearch (record_evaluation to_vec blake3_hash c evaluation state)
  record-IsSearch state c evaluation now next evaluated fresh room =
      let one = length-append_one state.evaluations evaluation.artifact in
      record {
        within = omega arith;
        accepts =
            chosen (Accepts source generator) evaluation.artifact.accepted (some c) state.best
              (λ h. (next.0, next.1)) (λ h. now.accepts);
        cached = still_cached state c evaluation now next evaluated fresh;
        distinct = still_distinct state c evaluation now next evaluated fresh;
        backed = now-IsBacked state c evaluation now next evaluated fresh;
        judged = now_judged state c evaluation now next evaluated fresh;
        reproduced =
            chosen_both evaluation.artifact.accepted
              (now_reproduced state c evaluation now next evaluated fresh)
              (reproduced-append state.evaluations evaluation.artifact state.best_trace state.best
                now.reproduced);
        least =
            chosen
              (λ best.
                All (IsLeast (rank (current_complexity generator best)))
                  (state.evaluations ++ evaluation.artifact ∷ []))
              evaluation.artifact.accepted (some c) state.best
              (λ h. now_least state c evaluation now next evaluated fresh)
              (still_least state c evaluation now next evaluated fresh);
      }
    where
      chosen_both :
          (accepted : Bool)
          → (accepted ≡ true
              → IsReproduced environment expected
                  (canonical_identity to_vec blake3_hash)
                  (state.evaluations ++ evaluation.artifact ∷ [])
                  (some evaluation.authority)
                  (some c))
          → IsReproduced environment expected
              (canonical_identity to_vec blake3_hash)
              (state.evaluations ++ evaluation.artifact ∷ [])
              state.best_trace
              state.best
          → IsReproduced environment expected
              (canonical_identity to_vec blake3_hash)
              (state.evaluations ++ evaluation.artifact ∷ [])
              (if accepted then some evaluation.authority else state.best_trace)
              (if accepted then some c else state.best)
      chosen_both true yes_case no_case = yes_case refl
      chosen_both false yes_case no_case = no_case
