-- ===== src/Shrink/Rounds.antt =====
-- crates/tiv-core/src/shrink.rs: rounds of shrinking, each from a candidate of the one before.
use tx_proof.Common.{
  ℕ, ◌≤◌, ◌≡◌, ◌↔◌, inl, inr, refl, sym, subst, arith, Option, none, some, List, [], ◌∷◌, length,
  ok, String, Result-cases, All, All-member, Member,
}
use tx_proof.Decision.{RandomSource}
use tx_proof.Plan.Compiler.{PlannedCase}
use tx_proof.Shrink.Lineage.{ShrinkAction}
use tx_proof.Shrink.Candidate.{
  ShrinkCandidate, entry_kinds, validate_seeded_source, validate_candidate,
}
use tx_proof.Shrink.Generator.{
  CandidateBatch, CandidateGenerator, CandidateLimit, new_generator, schedule_of,
  current_complexity, batch_of, candidate_batch,
}
use tx_proof.Shrink.Progress.{IsNext, IsBatch, batch_of-IsBatch}
use tx_proof.Shrink.Rank.{rank, complexity-rank}

-- The current candidate is none, or one that validates and has the source of the generator.
abbrev pub Accepts :
    {R : Type 0} → RandomSource R → CandidateGenerator → Option ShrinkCandidate → Type 0
Accepts source generator none = Unit
Accepts source generator (some c) =
    (validate_candidate source c ≡ ok tt) × (c.source ≡ generator.source)

module _ {R : Type 0} (source : RandomSource R) where
  generator_facts :
      (planned : PlannedCase) (generator : CandidateGenerator)
      → new_generator source planned ≡ ok generator
      → (generator.source ≡ planned) × (validate_seeded_source source planned ≡ ok tt)
  generator_facts planned generator h = ground arith

  schedule_of-ok :
      (generator : CandidateGenerator) (current : Option ShrinkCandidate)
      → Accepts source generator current
      → (schedule : List ShrinkAction) × (schedule_of source generator current ≡ ok schedule)
  schedule_of-ok generator none h = (_, refl)
  schedule_of-ok generator (some c) h = (c.schedule, ground arith)

  schedule_of-Accepts :
      (generator : CandidateGenerator) (current : Option ShrinkCandidate)
      (schedule : List ShrinkAction)
      → schedule_of source generator current ≡ ok schedule
      → Accepts source generator current
  schedule_of-Accepts generator none schedule h = tt
  schedule_of-Accepts generator (some c) schedule h = ground arith

module _ {R : Type 0} (source : RandomSource R)
    (to_vec : String × PlannedCase × List ShrinkAction → List ℕ)
    (blake3_hash : List ℕ → List ℕ) where
  candidate_batch-schedule :
      (generator : CandidateGenerator) (current : Option ShrinkCandidate) (limit : CandidateLimit)
      (batch : CandidateBatch)
      → candidate_batch source to_vec blake3_hash generator current limit ≡ ok batch
      → (schedule : List ShrinkAction) × (schedule_of source generator current ≡ ok schedule)
        × (batch_of source to_vec blake3_hash generator.source
              (current_complexity generator current)
              limit.value
              schedule
            ≡ batch)
  unfolding candidate_batch
  candidate_batch-schedule generator current limit batch h =
      elim (Result-cases (schedule_of source generator current)) [
        | inr (error, e) ↦ absurd (ground arith)
        | inl (schedule, e) ↦ (schedule, e, ground arith)
      ]

  -- A batch is given exactly if there is no current candidate, or one that validates and has the
  -- source of the generator.
  pub candidate_batch-ok_iff :
      (generator : CandidateGenerator) (current : Option ShrinkCandidate) (limit : CandidateLimit)
      → ((batch : CandidateBatch) × (candidate_batch source to_vec blake3_hash generator current
              limit
            ≡ ok batch))
        ↔ Accepts source generator current
  unfolding candidate_batch
  candidate_batch-ok_iff generator current limit = (
    λ (batch, h).
        let (schedule, e, _) = candidate_batch-schedule generator current limit batch h in
        schedule_of-Accepts source generator current schedule e,
    λ h.
        let (schedule, e) = schedule_of-ok source generator current h in
        (
          batch_of source to_vec blake3_hash generator.source (current_complexity generator current)
              limit.value schedule,
          rw e refl,
        ),
  )

  -- Every candidate that a generator emits validates, descends from the generator's own source and is
  -- strictly simpler than the current one; no two have the same identity, and they are within the
  -- limit.
  pub candidate_batch-IsBatch :
      (planned : PlannedCase) (generator : CandidateGenerator) (current : Option ShrinkCandidate)
      (limit : CandidateLimit) (batch : CandidateBatch)
      → new_generator source planned ≡ ok generator
      → candidate_batch source to_vec blake3_hash generator current limit ≡ ok batch
      → IsBatch source to_vec blake3_hash generator.source
          (current_complexity generator current)
          limit.value
          batch
  candidate_batch-IsBatch planned generator current limit batch made h =
      let (schedule, _, of) = candidate_batch-schedule generator current limit batch h in
      let (same, seeded) = generator_facts source planned generator made in
      let now = current_complexity generator current in
      subst (IsBatch source to_vec blake3_hash generator.source now limit.value) of (
        batch_of-IsBatch source to_vec blake3_hash generator.source now limit.value schedule
          (subst (λ p. validate_seeded_source source p ≡ ok tt) (sym same) seeded))

  -- The rounds of a shrinking run: each candidate is of the batch for the one before.
  pub data Rounds (generator : CandidateGenerator)
      : Option ShrinkCandidate → List ShrinkCandidate → Type 0 where
    done : {current : Option ShrinkCandidate} → Rounds generator current []
    round :
        {current : Option ShrinkCandidate} {c : ShrinkCandidate} {rest : List ShrinkCandidate}
        (limit : CandidateLimit) (batch : CandidateBatch)
        → candidate_batch source to_vec blake3_hash generator current limit ≡ ok batch
        → Member c batch.candidates
        → Rounds generator (some c) rest
        → Rounds generator current (c ∷ rest)

  -- Shrinking ends: a run has at most as many rounds as the rank of the complexity it starts from,
  -- whatever candidates are chosen; and each candidate it passes is accepted by the next round.
  pub Rounds-bounded :
      (planned : PlannedCase) (generator : CandidateGenerator)
      → new_generator source planned ≡ ok generator
      → (current : Option ShrinkCandidate) (chosen : List ShrinkCandidate)
      → Rounds generator current chosen
      → (length chosen ≤ rank (current_complexity generator current))
        × All (λ c. Accepts source generator (some c)) chosen
  Rounds-bounded planned generator made current _ done = (omega arith, tt)
  Rounds-bounded planned generator made current _
        (round {c = c} {rest = rest} limit batch h m more) =
      let promised = candidate_batch-IsBatch planned generator current limit batch made h in
      let (valid, of, simpler) =
        All-member (IsNext source generator.source (current_complexity generator current))
          batch.candidates c promised.next m in
      let falls =
        complexity-rank (entry_kinds c.schedule) (current_complexity generator current) simpler in
      let (shorter, accepted) = Rounds-bounded planned generator made (some c) rest more in
      (omega arith, ((valid, of), accepted))
