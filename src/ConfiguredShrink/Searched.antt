-- ===== src/ConfiguredShrink/Searched.antt =====
-- crates/tiv-runtime/src/configured_shrink.rs: how the loop `'search` ends.
use tx_proof.Common.{
  ℕ, zero, suc, ◌+◌, ◌<◌, ◌≡◌, ◌⊎◌, inl, inr, refl, sym, subst, arith, Bool, true, false, Option,
  none, some, List, [], ◌∷◌, length, Result, ok, err, String, All,
}
use tx_proof.Decision.{RandomSource}
use tx_proof.Plan.Compiler.{PlannedCase}
use tx_proof.Reproduction.{FailureIdentity}
use tx_proof.Shrink.Lineage.{ShrinkAction, ShrinkError}
use tx_proof.Shrink.Candidate.{ShrinkCandidate}
use tx_proof.Shrink.Generator.{
  CandidateGenerator, CandidateBatch, canonical_identity, candidate_batch, current_complexity,
  new_generator, default_limit,
}
use tx_proof.Shrink.Progress.{IsNext}
use tx_proof.Shrink.Rounds.{candidate_batch-ok_iff, candidate_batch-IsBatch}
use tx_proof.ConfiguredShrink.Options.{
  ShrinkDeadline, complete, budget_exhausted, source_inconclusive,
}
use tx_proof.ConfiguredShrink.Effects.{Environment}
use tx_proof.ConfiguredShrink.Search.{
  SearchState, new_search, FrontierEnd, candidate_accepted, budget_ended, frontier_rejected,
  evaluation_failed, SearchEnd, completed, failed, returned, search_frontier, after_frontier,
  explore_candidates, explore, search,
}
use tx_proof.ConfiguredShrink.Evaluations.{IsSearch}
use tx_proof.ConfiguredShrink.Concluded.{WasEvaluated, HasFailed, IsSpent}
use tx_proof.ConfiguredShrink.Frontier.{Ended, search_frontier-Ended}

module _ {R : Type 0} (source : RandomSource R)
    (to_vec : String × PlannedCase × List ShrinkAction → List ℕ) (blake3_hash : List ℕ → List ℕ)
    {W F : Type 0} (environment : Environment W F) (deadline : ShrinkDeadline)
    (configured_case_timeout : ℕ) (expected : FailureIdentity) (limit : ℕ)
    (generator : CandidateGenerator) where
  -- This is the frontier of the best candidate, and all of it was evaluated.
  abbrev pub IsTried : SearchState → CandidateBatch → Type 0
  IsTried state batch =
      (candidate_batch source to_vec blake3_hash generator state.best default_limit ≡ ok batch)
      × All (WasEvaluated (canonical_identity to_vec blake3_hash) state) batch.candidates

  -- The frontier of the best candidate is whole or empty, and all of it was evaluated.
  abbrev pub IsExhausted : SearchState → Type 0
  IsExhausted state =
      (batch : CandidateBatch) × ((batch.truncated ≡ false) ⊎ (batch.candidates ≡ []))
      × IsTried state batch

  -- The budget was spent, or the frontier of the best candidate was cut off and all of it evaluated.
  abbrev pub IsLimited : SearchState → Type 0
  IsLimited state =
      IsSpent source to_vec blake3_hash environment deadline configured_case_timeout expected limit
        generator state
      ⊎ ((batch : CandidateBatch) × (batch.truncated ≡ true) × IsTried state batch)

  -- What a search leaves, by how it ends. It neither ends as inconclusive nor returns with `?`.
  abbrev pub Searched : SearchEnd F × SearchState × W → Type 0
  Searched (completed complete, state, w) =
      IsSearch source to_vec blake3_hash environment expected generator limit state
      × IsExhausted state
  Searched (completed budget_exhausted, state, w) =
      IsSearch source to_vec blake3_hash environment expected generator limit state
      × IsLimited state
  Searched (completed source_inconclusive, state, w) = ⊥
  Searched (failed e, state, w) =
      IsSearch source to_vec blake3_hash environment expected generator limit state
      × HasFailed source to_vec blake3_hash environment deadline configured_case_timeout expected
          limit generator e
  Searched (returned e, state, w) = ⊥

  abbrev pub Returns : Option (SearchEnd F × SearchState × W) → Type 0
  Returns none = ⊥
  Returns (some outcome) = Searched outcome

  after_frontier-Returns :
      (state : SearchState) (batch : CandidateBatch)
      (next : SearchState → W → Option (SearchEnd F × SearchState × W))
      → ((state' : SearchState) (w : W)
          → IsSearch source to_vec blake3_hash environment expected generator limit state'
          → length state.evaluations < length state'.evaluations
          → Returns (next state' w))
      → candidate_batch source to_vec blake3_hash generator state.best default_limit ≡ ok batch
      → (was_capped : Bool) → batch.truncated ≡ was_capped
      → (end : FrontierEnd F × SearchState × W)
      → Ended source to_vec blake3_hash environment deadline configured_case_timeout expected limit
          generator state batch.candidates end
      → Returns (
          after_frontier source to_vec blake3_hash environment deadline configured_case_timeout
            expected limit next was_capped end)
  after_frontier-Returns state batch next go made was_capped capped (candidate_accepted, state', w)
        (kept, more) =
      go state' w kept more
  after_frontier-Returns state batch next go made was_capped capped (budget_ended, state', w)
        (kept, spent) =
      (kept, inl spent)
  after_frontier-Returns state batch next go made was_capped capped (evaluation_failed e, state', w)
        h =
      h
  after_frontier-Returns state batch next go made true capped (frontier_rejected, state', w)
        (kept, same, all, keeps) =
      (kept, inr (batch, capped, (rw same made, all)))
  after_frontier-Returns state batch next go made false capped (frontier_rejected, state', w)
        (kept, same, all, keeps) =
      (kept, (batch, inl capped, (rw same made, all)))

  explore_candidates-Returns :
      (state : SearchState) (w : W) (batch : CandidateBatch)
      (next : SearchState → W → Option (SearchEnd F × SearchState × W))
      → IsSearch source to_vec blake3_hash environment expected generator limit state
      → ((state' : SearchState) (w : W)
          → IsSearch source to_vec blake3_hash environment expected generator limit state'
          → length state.evaluations < length state'.evaluations
          → Returns (next state' w))
      → candidate_batch source to_vec blake3_hash generator state.best default_limit ≡ ok batch
      → (candidates : List ShrinkCandidate) → batch.candidates ≡ candidates
      → All (IsNext source generator.source (current_complexity generator state.best)) candidates
      → Returns (
          explore_candidates source to_vec blake3_hash environment deadline configured_case_timeout
            expected limit next batch.truncated candidates state w)
  explore_candidates-Returns state w batch next now go made [] none_left simpler = (
    now,
    (
      batch,
      inr none_left,
      (
        made,
        subst (All (WasEvaluated (canonical_identity to_vec blake3_hash) state)) (sym none_left) tt,
      ),
    ),
  )
  explore_candidates-Returns state w batch next now go made (first ∷ rest) some_left simpler =
      after_frontier-Returns state batch next go made batch.truncated refl _ (
        subst
          (λ candidates.
            Ended source to_vec blake3_hash environment deadline configured_case_timeout expected
              limit generator state candidates
              (search_frontier source to_vec blake3_hash environment deadline
                configured_case_timeout expected limit (first ∷ rest) state w))
          (sym some_left)
          (search_frontier-Ended source to_vec blake3_hash environment deadline
            configured_case_timeout expected limit generator (first ∷ rest) state w now simpler))

  explore-Returns :
      (planned : PlannedCase)
      → new_generator source planned ≡ ok generator
      → (state : SearchState) (w : W)
        (next : SearchState → W → Option (SearchEnd F × SearchState × W))
      → IsSearch source to_vec blake3_hash environment expected generator limit state
      → ((state' : SearchState) (w : W)
          → IsSearch source to_vec blake3_hash environment expected generator limit state'
          → length state.evaluations < length state'.evaluations
          → Returns (next state' w))
      → (result : Result ShrinkError CandidateBatch)
      → candidate_batch source to_vec blake3_hash generator state.best default_limit ≡ result
      → Returns (
          explore source to_vec blake3_hash environment deadline configured_case_timeout expected
            limit next result state w)
  explore-Returns planned new state w next now go (err e) made =
      let (batch, given) =
        (candidate_batch-ok_iff source to_vec blake3_hash generator state.best default_limit).1
          now.accepts in
      cc
  explore-Returns planned new state w next now go (ok batch) made =
      explore_candidates-Returns state w batch next now go made batch.candidates refl
        (candidate_batch-IsBatch source to_vec blake3_hash planned generator state.best
          default_limit batch new made).next

  search-Returns :
      (planned : PlannedCase)
      → new_generator source planned ≡ ok generator
      → (fuel : ℕ) (state : SearchState) (w : W)
      → IsSearch source to_vec blake3_hash environment expected generator limit state
      → limit < fuel + length state.evaluations
      → Returns (
          search source to_vec blake3_hash environment deadline configured_case_timeout expected
            limit generator fuel state w)
  unfolding search
  search-Returns planned new zero state w now enough =
      absurd (let within = now.within in omega arith)
  search-Returns planned new (suc fuel) state w now enough =
      explore-Returns planned new state w _ now
        (λ state' w' kept more. search-Returns planned new fuel state' w' kept (omega arith)) _ refl

  new_search-IsSearch :
      IsSearch source to_vec blake3_hash environment expected generator limit new_search
  new_search-IsSearch = record {
    within = omega arith;
    accepts = tt;
    cached = tt;
    backed = λ id accepted h. cc;
    distinct = tt;
    judged = tt;
    reproduced = refl;
    least = tt;
  }

  pub Returns-some :
      (outcome : Option (SearchEnd F × SearchState × W))
      → Returns outcome
      → (end : SearchEnd F × SearchState × W) × (outcome ≡ some end) × Searched end
  Returns-some none h = elim h [ ]
  Returns-some (some end) h = (end, refl, h)

  -- From a generator of a validated case, one unit of fuel more than the limit of candidates is
  -- enough: the search ends, never with an error of the generator. At most the limit of evaluations
  -- are recorded, no identity twice; each is of a candidate by three attempts that the environment
  -- executed, with the same trace but for the gates, accepted exactly if at least two of them found
  -- the expected failure. The best candidate validates, was accepted so, and no accepted one ranks
  -- below it; the best trace is that of its first attempt. A complete search has recorded an
  -- evaluation of every candidate of the frontier of the best one. One whose budget is exhausted
  -- has done so for a frontier that was cut off, or it reached the limit, the deadline had passed
  -- or an evaluation ran out of time; a failed one has the error of an evaluation.
  pub search-IsSearched :
      (planned : PlannedCase)
      → new_generator source planned ≡ ok generator
      → (fuel : ℕ) (w : W) → limit < fuel
      → (end : SearchEnd F × SearchState × W) × (search source to_vec blake3_hash environment
            deadline configured_case_timeout expected limit generator fuel new_search w
          ≡ some end)
        × Searched end
  search-IsSearched planned new fuel w enough =
      Returns-some _
        (search-Returns planned new fuel new_search w new_search-IsSearch (omega arith))
