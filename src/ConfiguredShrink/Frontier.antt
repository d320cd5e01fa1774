-- ===== src/ConfiguredShrink/Frontier.antt =====
-- crates/tiv-runtime/src/configured_shrink.rs: the loop over the candidates of one frontier.
use tx_proof.Common.{
  ℕ, ◌≤◌, ◌<◌, ◌≡◌, refl, sym, ◌∙◌, subst, arith, List, [], ◌∷◌, length, String, All,
}
use tx_proof.Decision.{RandomSource}
use tx_proof.Plan.Compiler.{PlannedCase}
use tx_proof.Reproduction.{FailureIdentity}
use tx_proof.Shrink.Lineage.{ShrinkAction}
use tx_proof.Shrink.Candidate.{ShrinkCandidate}
use tx_proof.Shrink.Generator.{CandidateGenerator, canonical_identity, current_complexity}
use tx_proof.Shrink.Progress.{IsNext}
use tx_proof.ConfiguredShrink.Options.{ShrinkDeadline}
use tx_proof.ConfiguredShrink.Effects.{Environment}
use tx_proof.ConfiguredShrink.Search.{
  SearchState, FrontierEnd, candidate_accepted, budget_ended, frontier_rejected, evaluation_failed,
  Considered, next_candidate, stop, after_candidate, search_frontier,
}
use tx_proof.ConfiguredShrink.Evaluations.{IsSearch}
use tx_proof.ConfiguredShrink.Concluded.{
  Keeps, WasEvaluated, HasFailed, IsSpent, Concluded, consider-Concluded,
}

module _ {R : Type 0} (source : RandomSource R)
    (to_vec : String × PlannedCase × List ShrinkAction → List ℕ) (blake3_hash : List ℕ → List ℕ)
    {W F : Type 0} (environment : Environment W F) (deadline : ShrinkDeadline)
    (configured_case_timeout : ℕ) (expected : FailureIdentity) (limit : ℕ)
    (generator : CandidateGenerator) where
  -- What one frontier leaves, by how it ends.
  abbrev pub Ended : SearchState → List ShrinkCandidate → FrontierEnd F × SearchState × W → Type 0
  Ended state candidates (frontier_rejected, state', w) =
      IsSearch source to_vec blake3_hash environment expected generator limit state'
      × (state'.best ≡ state.best)
      × All (WasEvaluated (canonical_identity to_vec blake3_hash) state') candidates
      × Keeps state state'
  Ended state candidates (candidate_accepted, state', w) =
      IsSearch source to_vec blake3_hash environment expected generator limit state'
      × (length state.evaluations < length state'.evaluations)
  Ended state candidates (budget_ended, state', w) =
      IsSearch source to_vec blake3_hash environment expected generator limit state'
      × IsSpent source to_vec blake3_hash environment deadline configured_case_timeout expected
          limit generator state'
  Ended state candidates (evaluation_failed e, state', w) =
      IsSearch source to_vec blake3_hash environment expected generator limit state'
      × HasFailed source to_vec blake3_hash environment deadline configured_case_timeout expected
          limit generator e

  add_evaluated :
      (state middle : SearchState) (c : ShrinkCandidate) (rest : List ShrinkCandidate)
      (outcome : FrontierEnd F × SearchState × W)
      → middle.best ≡ state.best
      → WasEvaluated (canonical_identity to_vec blake3_hash) middle c
      → Keeps state middle
      → length state.evaluations ≤ length middle.evaluations
      → Ended middle rest outcome
      → Ended state (c ∷ rest) outcome
  add_evaluated state middle c rest (frontier_rejected, s, w) same (e, seen, of) keeps longer
        (done, best, all, kept) =
      (done, best ∙ same, ((e, kept e seen, of), all), λ e' h. kept e' (keeps e' h))
  add_evaluated state middle c rest (candidate_accepted, s, w) same seen keeps longer (done, more) =
      (done, omega arith)
  add_evaluated state middle c rest (budget_ended, s, w) same seen keeps longer done = done
  add_evaluated state middle c rest (evaluation_failed e, s, w) same seen keeps longer done = done

  after_candidate-Ended :
      (state : SearchState) (c : ShrinkCandidate) (rest : List ShrinkCandidate)
      (next : SearchState → W → FrontierEnd F × SearchState × W)
      → ((middle : SearchState) (w : W)
          → IsSearch source to_vec blake3_hash environment expected generator limit middle
          → middle.best ≡ state.best
          → Ended middle rest (next middle w))
      → (considered : Considered F × SearchState × W)
      → Concluded source to_vec blake3_hash environment deadline configured_case_timeout expected
          limit generator state c considered
      → Ended state (c ∷ rest) (
          after_candidate source to_vec blake3_hash environment deadline configured_case_timeout
            expected limit next considered)
  after_candidate-Ended state c rest next go (next_candidate, middle, w)
        (done, same, seen, keeps, longer) =
      add_evaluated state middle c rest _ same seen keeps longer (go middle w done same)
  after_candidate-Ended state c rest next go (stop candidate_accepted, s, w) h = h
  after_candidate-Ended state c rest next go (stop frontier_rejected, s, w) h = elim h [ ]
  after_candidate-Ended state c rest next go (stop budget_ended, s, w) h = h
  after_candidate-Ended state c rest next go (stop (evaluation_failed e), s, w) h = h

  pub search_frontier-Ended :
      (candidates : List ShrinkCandidate) (state : SearchState) (w : W)
      → IsSearch source to_vec blake3_hash environment expected generator limit state
      → All (IsNext source generator.source (current_complexity generator state.best)) candidates
      → Ended state candidates (
          search_frontier source to_vec blake3_hash environment deadline configured_case_timeout
            expected limit candidates state w)
  unfolding search_frontier
  search_frontier-Ended [] state w now next = (now, refl, tt, λ _ h. h)
  search_frontier-Ended (c ∷ rest) state w now next =
      after_candidate-Ended state c rest _
        (λ middle w' done same. search_frontier-Ended rest middle w' done (
          subst
            (λ best. All (IsNext source generator.source (current_complexity generator best)) rest)
            (sym same) (next.1)))
        _
        (consider-Concluded source to_vec blake3_hash environment deadline configured_case_timeout
          expected limit generator state c w now next.0)
