-- ===== src/Shrink/Progress.antt =====
-- crates/tiv-core/src/shrink.rs: what every candidate of a batch is.
use tx_proof.Common.{
  ℕ, zero, suc, ◌≤◌, ◌≡◌, inl, inr, refl, sym, subst, arith, true, false, Option, none, some, List,
  [], ◌∷◌, ◌++◌, length, take, ok, contains, contains-Member, if◌then◌else◌, String, Bool-cases,
  Result-cases, Option-cases, All, All-append, Member,
}
use tx_proof.Decision.{RandomSource}
use tx_proof.Plan.Compiler.{PlannedCase}
use tx_proof.Plan.Replay.{normalize_replay_action_kinds}
use tx_proof.Shrink.Complexity.{ShrinkComplexity, is_simpler}
use tx_proof.Shrink.Lineage.{ShrinkAction}
use tx_proof.Shrink.Candidate.{
  ShrinkCandidate, entry_kinds, new_candidate, validate_seeded_source, validate_candidate,
}
use tx_proof.Shrink.Materialized.{new_candidate-validates}
use tx_proof.Shrink.Generator.{
  CandidateBatch, Frontier, empty_frontier, identity_discrete, canonical_identity, candidate_of,
  insert_candidate, keep_simpler, pick_entries, candidate_complexity, batch_of,
}
use tx_proof.Shrink.Batches.{admit, collect, whole_frontier, every_proposal, batch-whole_frontier}

module _ {A : Type 0} where
  length-take-le : (n : ℕ) (xs : List A) → length (take n xs) ≤ n
  length-take-le zero xs = omega arith
  length-take-le (suc n) [] = omega arith
  length-take-le (suc n) (x ∷ xs) = omega (arith, length-take-le n xs)

  All-take : (P : A → Type 0) (n : ℕ) (xs : List A) → All P xs → All P (take n xs)
  All-take P zero xs h = tt
  All-take P (suc n) [] h = tt
  All-take P (suc n) (x ∷ xs) h = (h.0, All-take P n xs h.1)

  -- No two elements have the same value of `f`.
  abbrev pub HaveDistinct : (A → List ℕ) → List A → Type 0
  HaveDistinct f [] = Unit
  HaveDistinct f (x ∷ xs) = All (λ y. f x ≡ f y → ⊥) xs × HaveDistinct f xs

  HaveDistinct-take :
      (f : A → List ℕ) (n : ℕ) (xs : List A) → HaveDistinct f xs → HaveDistinct f (take n xs)
  HaveDistinct-take f zero xs h = tt
  HaveDistinct-take f (suc n) [] h = tt
  HaveDistinct-take f (suc n) (x ∷ xs) h =
      (All-take (λ y. f x ≡ f y → ⊥) n xs h.0, HaveDistinct-take f n xs h.1)

  pub HaveDistinct-snoc :
      (f : A → List ℕ) (xs : List A) (y : A)
      → HaveDistinct f xs
      → All (λ x. f x ≡ f y → ⊥) xs
      → HaveDistinct f (xs ++ y ∷ [])
  HaveDistinct-snoc f [] y h fresh = (tt, tt)
  HaveDistinct-snoc f (x ∷ xs) y h fresh = (
    All-append (λ z. f x ≡ f z → ⊥) xs (y ∷ []) h.0 (fresh.0, tt),
    HaveDistinct-snoc f xs y h.1 fresh.1,
  )

-- What a candidate of a batch is: it validates, has the source, and is simpler.
abbrev pub IsNext :
    {R : Type 0} → RandomSource R → PlannedCase → ShrinkComplexity → ShrinkCandidate → Type 0
IsNext source planned current c =
    (validate_candidate source c ≡ ok tt)
    × (c.source ≡ planned)
    × (is_simpler (candidate_complexity c) current ≡ true)

module _ {R : Type 0} (source : RandomSource R) (planned : PlannedCase)
    (current : ShrinkComplexity) where
  keep_simpler-some :
      (c kept : ShrinkCandidate)
      → keep_simpler current c ≡ some kept
      → (c ≡ kept) × (is_simpler (candidate_complexity kept) current ≡ true)
  keep_simpler-some c kept h = ground arith

  candidate_of-IsNext :
      (proposal : List ShrinkAction) (c : ShrinkCandidate)
      → validate_seeded_source source planned ≡ ok tt
      → candidate_of source planned current proposal ≡ some c
      → IsNext source planned current c
  unfolding candidate_of
  candidate_of-IsNext proposal c seeded h =
      elim (Option-cases (
        normalize_replay_action_kinds planned.spec (entry_kinds proposal)
          planned.scheduler_algorithm)) [
            | inl e ↦ absurd (ground arith)
            | inr (retained, e) ↦
                elim (Result-cases
                  (new_candidate source planned (pick_entries proposal retained))) [
                    | inr (error, f) ↦ absurd (ground arith)
                    | inl (made, f) ↦
                        let (same, simpler) = keep_simpler-some made c (ground arith) in
                        let (valid, of) =
                          new_candidate-validates source planned (pick_entries proposal retained) c
                            seeded
                            (subst
                              (λ k.
                                new_candidate source planned (pick_entries proposal retained)
                                ≡ ok k)
                              same f) in
                        (valid, of, simpler)
                  ]
          ]

module _ {R : Type 0} (source : RandomSource R)
    (to_vec : String × PlannedCase × List ShrinkAction → List ℕ)
    (blake3_hash : List ℕ → List ℕ) where
  abbrev identity : ShrinkCandidate → List ℕ
  identity = canonical_identity to_vec blake3_hash

  -- Kept by every push
  record IsFrontier (planned : PlannedCase) (current : ShrinkComplexity) (f : Frontier)
      : Type 0 where
    next : All (IsNext source planned current) f.found
    distinct : HaveDistinct identity f.found
    listed : All (λ c. Member (identity c) f.identities) f.found

  unlisted :
      (identities : List (List ℕ)) (found : List ShrinkCandidate) (c : ShrinkCandidate)
      → contains identity_discrete identities (identity c) ≡ false
      → All (λ x. Member (identity x) identities) found
      → All (λ x. identity x ≡ identity c → ⊥) found
  unlisted identities [] c new listed = tt
  unlisted identities (x ∷ found) c new listed = (
    λ same.
        let present =
          contains-Member identity_discrete identities (identity c)
            (subst (λ i. Member i identities) same listed.0) in
        cc,
    unlisted identities found c new listed.1,
  )

  listed-cons :
      (i : List ℕ) (identities : List (List ℕ)) (found : List ShrinkCandidate)
      → All (λ x. Member (identity x) identities) found
      → All (λ x. Member (identity x) (i ∷ identities)) found
  listed-cons i identities [] h = tt
  listed-cons i identities (x ∷ found) h = (inr h.0, listed-cons i identities found h.1)

  module _ (planned : PlannedCase) (current : ShrinkComplexity) where
    insert-IsFrontier :
        (o : Option ShrinkCandidate) (f : Frontier)
        → ((c : ShrinkCandidate) → o ≡ some c → IsNext source planned current c)
        → IsFrontier planned current f
        → IsFrontier planned current (insert_candidate to_vec blake3_hash o f)
    insert-IsFrontier none f n h = h
    insert-IsFrontier (some c) f n h =
        elim (Bool-cases (contains identity_discrete f.identities (identity c))) [
          | inl e ↦ rw e h
          | inr e ↦
              subst
                (λ test. IsFrontier planned current (
                  if test then f else record {
                    identities = identity c ∷ f.identities;
                    found = f.found ++ c ∷ [];
                  }))
                (sym e)
                (record {
                  next =
                      All-append (IsNext source planned current) f.found (c ∷ []) h.next
                        (n c refl, tt);
                  distinct =
                      HaveDistinct-snoc identity f.found c h.distinct
                        (unlisted f.identities f.found c e h.listed);
                  listed =
                      All-append (λ x. Member (identity x) (identity c ∷ f.identities)) f.found
                        (c ∷ []) (listed-cons (identity c) f.identities f.found h.listed)
                        (inl refl, tt);
                })
        ]

    collect-IsFrontier :
        (proposals : List (List ShrinkAction)) (f : Frontier)
        → validate_seeded_source source planned ≡ ok tt
        → IsFrontier planned current f
        → IsFrontier planned current (collect source to_vec blake3_hash planned current proposals f)
    collect-IsFrontier [] f seeded h = h
    collect-IsFrontier (proposal ∷ proposals) f seeded h =
        collect-IsFrontier proposals (admit source to_vec blake3_hash planned current proposal f)
          seeded
          (insert-IsFrontier (candidate_of source planned current proposal) f
            (λ c e. candidate_of-IsNext source planned current proposal c seeded e) h)

  -- What a batch promises the caller.
  pub record IsBatch (planned : PlannedCase) (current : ShrinkComplexity) (limit : ℕ)
      (batch : CandidateBatch) : Type 0 where
    pub next : All (IsNext source planned current) batch.candidates
    pub distinct : HaveDistinct identity batch.candidates
    pub bounded : length batch.candidates ≤ limit

  pub batch_of-IsBatch :
      (planned : PlannedCase) (current : ShrinkComplexity) (limit : ℕ)
      (schedule : List ShrinkAction)
      → validate_seeded_source source planned ≡ ok tt
      → IsBatch planned current limit
          (batch_of source to_vec blake3_hash planned current limit schedule)
  batch_of-IsBatch planned current limit schedule seeded =
      let whole = whole_frontier source to_vec blake3_hash planned current schedule in
      let h =
        collect-IsFrontier planned current (every_proposal schedule) empty_frontier seeded
          (record { next = tt; distinct = tt; listed = tt }) in
      subst (IsBatch planned current limit)
        (sym (batch-whole_frontier source to_vec blake3_hash planned current limit schedule))
        (record {
          next = All-take (IsNext source planned current) limit whole h.next;
          distinct = HaveDistinct-take identity limit whole h.distinct;
          bounded = length-take-le limit whole;
        })
