-- ===== src/ConfiguredShrink/Search.antt =====
-- crates/tiv-runtime/src/configured_shrink.rs: the loop `'search` of `run_configured_shrink` and what it
-- is finished with. The loop recurs on fuel, one unit for each frontier; `none` means that it ran out.
use tx_proof.Common.{
  ℕ, zero, suc, ◌+◌, min, Bool, true, false, Option, none, some, List, [], ◌∷◌, ◌++◌, length,
  Result, ok, err, String, ◌==◌, lookup, insert_entry, if◌then◌else◌,
}
use tx_proof.Decision.{RandomSource}
use tx_proof.Plan.Compiler.{PlannedCase}
use tx_proof.Reproduction.{FailureIdentity}
use tx_proof.Shrink.Lineage.{ShrinkError, ShrinkAction}
use tx_proof.Shrink.Chunks.{usize_max}
use tx_proof.Shrink.Candidate.{ShrinkCandidate}
use tx_proof.Shrink.Generator.{
  CandidateBatch, CandidateGenerator, default_limit, canonical_identity, candidate_batch,
  identity_discrete,
}
use tx_proof.Trace.Materialize.{CompiledShrinkTrace}
use tx_proof.ConfiguredShrink.Options.{
  ConfiguredShrinkCompletion, complete, budget_exhausted, ShrinkDeadline,
}
use tx_proof.ConfiguredShrink.Effects.{
  ConfiguredShrinkError, candidate, budget_expired, CandidateEvaluationArtifact, Environment,
  is_exhausted,
}
use tx_proof.ConfiguredShrink.Evaluate.{CandidateEvaluation, evaluate_candidate}

-- The variables of the loop. The cache has an entry for each identity that was evaluated.
pub record SearchState : Type 0 where
  pub best : Option ShrinkCandidate
  pub best_trace : Option CompiledShrinkTrace
  pub evaluations : List CandidateEvaluationArtifact
  pub cache : List (List ℕ × Bool)
  pub cache_hits : ℕ
  pub accepted_candidates : ℕ

abbrev pub new_search : SearchState
new_search = record {
  best = none;
  best_trace = none;
  evaluations = [];
  cache = [];
  cache_hits = 0;
  accepted_candidates = 0;
}

abbrev pub saturating_increment : ℕ → ℕ
saturating_increment n = min (n + 1) usize_max

-- How the loop over one frontier ends: `continue 'search`, the two ways of `break 'search`, an error
-- that is finalized, or the end of the frontier with no candidate accepted.
pub data FrontierEnd (F : Type 0) : Type 0 where
  candidate_accepted budget_ended frontier_rejected : FrontierEnd F
  evaluation_failed : ConfiguredShrinkError F → FrontierEnd F

-- One candidate: on to the next, or the frontier ends.
pub data Considered (F : Type 0) : Type 0 where
  next_candidate : Considered F
  stop : FrontierEnd F → Considered F

-- How the search ends: it completes, an evaluation fails with partial evidence, or `?` returns.
pub data SearchEnd (F : Type 0) : Type 0 where
  completed : ConfiguredShrinkCompletion → SearchEnd F
  failed returned : ConfiguredShrinkError F → SearchEnd F

-- An accepted candidate starts the next frontier.
abbrev pub after_evaluation : {F : Type 0} → Bool → Considered F
after_evaluation true = stop candidate_accepted
after_evaluation false = next_candidate

module _ (to_vec : String × PlannedCase × List ShrinkAction → List ℕ)
    (blake3_hash : List ℕ → List ℕ) where
  abbrev pub record_evaluation : ShrinkCandidate → CandidateEvaluation → SearchState → SearchState
  record_evaluation tried evaluation state =
      let accepted = evaluation.artifact.accepted in
      record {
        best = if accepted then some tried else state.best;
        best_trace = if accepted then some evaluation.authority else state.best_trace;
        evaluations = state.evaluations ++ evaluation.artifact ∷ [];
        cache =
            insert_entry identity_discrete state.cache (canonical_identity to_vec blake3_hash tried)
              accepted;
        cache_hits = state.cache_hits;
        accepted_candidates =
            if accepted
            then saturating_increment state.accepted_candidates
            else state.accepted_candidates;
      }

module _ {R : Type 0} (source : RandomSource R)
    (to_vec : String × PlannedCase × List ShrinkAction → List ℕ) (blake3_hash : List ℕ → List ℕ)
    {W F : Type 0} (environment : Environment W F) (deadline : ShrinkDeadline)
    (configured_case_timeout : ℕ) (expected : FailureIdentity) (limit : ℕ) where
  abbrev pub conclude :
      ShrinkCandidate
      → SearchState
      → Result (ConfiguredShrinkError F) CandidateEvaluation × W
      → Considered F × SearchState × W
  conclude tried state (ok evaluation, w) = (
    after_evaluation evaluation.artifact.accepted,
    record_evaluation to_vec blake3_hash tried evaluation state,
    w,
  )
  conclude tried state (err budget_expired, w) = (stop budget_ended, state, w)
  conclude tried state (err cause, w) = (stop (evaluation_failed cause), state, w)

  abbrev pub within_budget :
      ShrinkCandidate → SearchState → Bool × W → Considered F × SearchState × W
  within_budget tried state (true, w) = (stop budget_ended, state, w)
  within_budget tried state (false, w) = conclude tried state (
      evaluate_candidate environment deadline configured_case_timeout expected to_vec blake3_hash
        tried w)

  unfoldable pub consider : ShrinkCandidate → SearchState → W → Considered F × SearchState × W
  consider tried state w =
      elim (lookup identity_discrete state.cache (canonical_identity to_vec blake3_hash tried)) [
        | some _ ↦
            (next_candidate, record state { cache_hits = saturating_increment state.cache_hits }, w)
        | none ↦ elim (length state.evaluations == limit) [
          | true ↦ (stop budget_ended, state, w)
          | false ↦ within_budget tried state (is_exhausted environment deadline w)
        ]
      ]

  abbrev pub after_candidate :
      (SearchState → W → FrontierEnd F × SearchState × W)
      → Considered F × SearchState × W
      → FrontierEnd F × SearchState × W
  after_candidate next (next_candidate, state, w) = next state w
  after_candidate next (stop how, state, w) = (how, state, w)

  -- `for candidate in candidates`
  unfoldable pub search_frontier :
      List ShrinkCandidate → SearchState → W → FrontierEnd F × SearchState × W
  search_frontier [] state w = (frontier_rejected, state, w)
  search_frontier (tried ∷ rest) state w =
      after_candidate (search_frontier rest) (consider tried state w)

  abbrev pub after_frontier :
      (SearchState → W → Option (SearchEnd F × SearchState × W))
      → Bool
      → FrontierEnd F × SearchState × W
      → Option (SearchEnd F × SearchState × W)
  after_frontier next was_capped (candidate_accepted, state, w) = next state w
  after_frontier next was_capped (budget_ended, state, w) =
      some (completed budget_exhausted, state, w)
  after_frontier next was_capped (evaluation_failed cause, state, w) = some (failed cause, state, w)
  after_frontier next true (frontier_rejected, state, w) =
      some (completed budget_exhausted, state, w)
  after_frontier next false (frontier_rejected, state, w) = some (completed complete, state, w)

  -- An empty frontier ends the search before anything is considered.
  abbrev pub explore_candidates :
      (SearchState → W → Option (SearchEnd F × SearchState × W))
      → Bool
      → List ShrinkCandidate
      → SearchState
      → W
      → Option (SearchEnd F × SearchState × W)
  explore_candidates next was_capped [] state w = some (completed complete, state, w)
  explore_candidates next was_capped (first ∷ rest) state w =
      after_frontier next was_capped (search_frontier (first ∷ rest) state w)

  abbrev pub explore :
      (SearchState → W → Option (SearchEnd F × SearchState × W))
      → Result ShrinkError CandidateBatch
      → SearchState
      → W
      → Option (SearchEnd F × SearchState × W)
  explore next (err e) state w = some (returned (candidate e), state, w)
  explore next (ok batch) state w = explore_candidates next batch.truncated batch.candidates state w

  unfoldable pub search :
      CandidateGenerator → ℕ → SearchState → W → Option (SearchEnd F × SearchState × W)
  search generator zero state w = none
  search generator (suc fuel) state w =
      explore (search generator fuel)
        (candidate_batch source to_vec blake3_hash generator state.best default_limit) state w
