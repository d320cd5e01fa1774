-- ===== src/Shrink/Batches.antt =====
-- crates/tiv-core/src/shrink.rs: `candidate_batch` against the frontier that no limit cuts off.
use tx_proof.Common.{
  ℕ, zero, suc, ◌+◌, ◌≤◌, ◌<◌, ◌≡◌, ◌⊎◌, inl, inr, refl, sym, ap, ◌∙◌, subst, arith, true, false,
  Option, none, some, List, [], ◌∷◌, ◌++◌, length, take, Result, ok, err, contains, ltb, ◌==◌,
  String, Bool-cases, length-append,
}
use mathlib.Core.List.{append_assoc, append-nil}
use tx_proof.Decision.{RandomSource}
use tx_proof.Plan.Compiler.{PlannedCase}
use tx_proof.Shrink.Complexity.{ShrinkComplexity}
use tx_proof.Shrink.Lineage.{ShrinkAction}
use tx_proof.Shrink.Candidate.{ShrinkCandidate}
use tx_proof.Shrink.Proposals.{all_chunk_proposals, removal_proposals, entry_proposals}
use tx_proof.Shrink.Generator.{
  CandidateBatch, Frontier, empty_frontier, identity_discrete, canonical_identity, candidate_of,
  insert_candidate, push_candidate, push_all, push_until_full, push_entries, finish_batch, batch_of,
}

abbrev pub concat : List (List (List ShrinkAction)) → List (List ShrinkAction)
concat [] = []
concat (proposals ∷ entries) = proposals ++ concat entries

abbrev pub every_proposal : List ShrinkAction → List (List ShrinkAction)
every_proposal schedule =
    all_chunk_proposals schedule
    ++ (removal_proposals schedule 0 schedule ++ concat (entry_proposals schedule 0 schedule))

module _ {A : Type 0} where
  take-append :
      (n : ℕ) (front back : List A) → n ≤ length front → take n (front ++ back) ≡ take n front
  take-append zero front back h = refl
  take-append (suc n) [] back h = absurd (omega arith)
  take-append (suc n) (x ∷ front) back h =
      ap (λ xs. x ∷ xs) (take-append n front back (omega arith))

-- `g` is `f`, or `f` is full and `g` goes on from it.
abbrev Bounded : ℕ → Frontier → Frontier → Type 0
Bounded target f g =
    (f ≡ g) × (length g.found ≤ target)
    ⊎ (length f.found ≡ target) × ((rest : List ShrinkCandidate) × (g.found ≡ f.found ++ rest))

-- The batch that a limit cuts from what was found.
abbrev pub batch_from : ℕ → List ShrinkCandidate → CandidateBatch
batch_from limit found = record {
  candidates = take limit found;
  truncated = ltb limit (length found);
}

module _ {R : Type 0} (source : RandomSource R)
    (to_vec : String × PlannedCase × List ShrinkAction → List ℕ) (blake3_hash : List ℕ → List ℕ)
    (planned : PlannedCase) (current : ShrinkComplexity) where
  abbrev pub admit : List ShrinkAction → Frontier → Frontier
  admit proposal frontier =
      insert_candidate to_vec blake3_hash (candidate_of source planned current proposal) frontier

  -- The frontier without a limit: every candidate whose identity none before it has.
  abbrev pub collect : List (List ShrinkAction) → Frontier → Frontier
  collect [] frontier = frontier
  collect (proposal ∷ proposals) frontier = collect proposals (admit proposal frontier)

  abbrev pub whole_frontier : List ShrinkAction → List ShrinkCandidate
  whole_frontier schedule = (collect (every_proposal schedule) empty_frontier).found

  collect-append :
      (front back : List (List ShrinkAction)) (f : Frontier)
      → collect (front ++ back) f ≡ collect back (collect front f)
  collect-append [] back f = refl
  collect-append (proposal ∷ front) back f = collect-append front back _

  insert-extends :
      (o : Option ShrinkCandidate) (f : Frontier)
      → (more : List ShrinkCandidate) × ((insert_candidate to_vec blake3_hash o f).found
          ≡ f.found ++ more)
        × (length more ≤ 1)
  insert-extends none f = ([], sym (append-nil f.found), omega arith)
  insert-extends (some candidate) f =
      elim (Bool-cases (
        contains identity_discrete f.identities
          (canonical_identity to_vec blake3_hash candidate))) [
            | inl e ↦ ([], rw e (sym (append-nil f.found)), omega arith)
            | inr e ↦ (candidate ∷ [], rw e refl, omega arith)
          ]

  Bounded-insert :
      (target : ℕ) (f g : Frontier) (o : Option ShrinkCandidate)
      → length f.found ≡ target
      → Bounded target f g
      → Bounded target f (insert_candidate to_vec blake3_hash o g)
  Bounded-insert target f g o full b =
      let (more, e, short) = insert-extends o g in
      elim b [
        | inl (same, _) ↦ inr (full, (more, e ∙ ap (λ h. h.found ++ more) (sym same)))
        | inr (_, (rest, at)) ↦
            inr (full, (rest ++ more, e ∙ ap (λ l. l ++ more) at ∙ append_assoc f.found rest more))
      ]

  Bounded-collect :
      (target : ℕ) (proposals : List (List ShrinkAction)) (f g : Frontier)
      → length f.found ≡ target
      → Bounded target f g
      → Bounded target f (collect proposals g)
  Bounded-collect target [] f g full b = b
  Bounded-collect target (proposal ∷ proposals) f g full b =
      Bounded-collect target proposals f (admit proposal g) full
        (Bounded-insert target f g (candidate_of source planned current proposal) full b)

  Bounded-room :
      (target : ℕ) (f g : Frontier) (o : Option ShrinkCandidate)
      → (length f.found == target) ≡ false
      → Bounded target f g
      → Bounded target
          (insert_candidate to_vec blake3_hash o f)
          (insert_candidate to_vec blake3_hash o g)
  Bounded-room target f g o room (inl (same, short)) =
      let (more, e, one) = insert-extends o g in
      let size = length-append g.found more in
      let same_size = ap (λ h. length h.found) same in
      let fewer : length g.found < target = ground arith in
      inl (ap (λ h. insert_candidate to_vec blake3_hash o h) same, rw e (omega arith))
  Bounded-room target f g o room (inr (full, _)) = absurd (ground arith)

  Bounded-push :
      (target : ℕ) (f g : Frontier) (proposal : List ShrinkAction)
      → Bounded target f g
      → Bounded target
          (push_candidate source to_vec blake3_hash planned current target proposal f)
          (admit proposal g)
  unfolding push_candidate
  Bounded-push target f g proposal b = elim (Bool-cases (length f.found == target)) [
    | inl e ↦
        rw e (
          Bounded-insert target f g (candidate_of source planned current proposal) (ground arith) b)
    | inr e ↦ rw e (Bounded-room target f g (candidate_of source planned current proposal) e b)
  ]

  Bounded-push_all :
      (target : ℕ) (proposals : List (List ShrinkAction)) (f g : Frontier)
      → Bounded target f g
      → Bounded target
          (push_all source to_vec blake3_hash planned current target proposals f)
          (collect proposals g)
  Bounded-push_all target [] f g b = b
  Bounded-push_all target (proposal ∷ proposals) f g b =
      Bounded-push_all target proposals
        (push_candidate source to_vec blake3_hash planned current target proposal f)
        (admit proposal g) (Bounded-push target f g proposal b)

  Bounded-push_entries :
      (target : ℕ) (entries : List (List (List ShrinkAction))) (f g : Frontier)
      → Bounded target f g
      → Bounded target
          (push_entries source to_vec blake3_hash planned current target entries f)
          (collect (concat entries) g)
  unfolding push_entries
  Bounded-push_entries target [] f g b = b
  Bounded-push_entries target (proposals ∷ entries) f g b =
      let next = push_all source to_vec blake3_hash planned current target proposals f in
      let pushed = Bounded-push_all target proposals f g b in
      rw (collect-append proposals (concat entries) g)
        (elim (Bool-cases (length next.found == target)) [
          | inl e ↦
              rw (e, push_entries)
                (Bounded-collect target (concat entries) next (collect proposals g) (ground arith)
                  pushed)
          | inr e ↦
              rw (e, push_entries)
                (Bounded-push_entries target entries next (collect proposals g) pushed)
        ])

  -- After the first loops
  abbrev BoundedResult : ℕ → Result Frontier Frontier → Frontier → Type 0
  BoundedResult target (ok f) g = Bounded target f g
  BoundedResult target (err f) g = (length f.found ≡ target) × Bounded target f g

  Bounded-push_until_full :
      (target : ℕ) (proposals : List (List ShrinkAction)) (f g : Frontier)
      → Bounded target f g
      → BoundedResult target
          (push_until_full source to_vec blake3_hash planned current target proposals f)
          (collect proposals g)
  unfolding push_until_full
  Bounded-push_until_full target [] f g b = b
  Bounded-push_until_full target (proposal ∷ proposals) f g b =
      let next = push_candidate source to_vec blake3_hash planned current target proposal f in
      let pushed = Bounded-push target f g proposal b in
      elim (Bool-cases (length next.found == target)) [
        | inl e ↦
            let full : length next.found ≡ target = ground arith in
            rw (e, push_until_full)
              (full, Bounded-collect target proposals next (admit proposal g) full pushed)
        | inr e ↦
            rw (e, push_until_full)
              (Bounded-push_until_full target proposals next (admit proposal g) pushed)
      ]

  Bounded-batch_from :
      (limit : ℕ) (f g : Frontier)
      → Bounded (limit + 1) f g
      → batch_from limit f.found ≡ batch_from limit g.found
  Bounded-batch_from limit f g (inl (same, _)) = ap (λ h. batch_from limit h.found) same
  Bounded-batch_from limit f g (inr (full, (rest, e))) =
      let longer = length-append f.found rest in
      let same = take-append limit f.found rest (omega arith) in
      let cut : ltb limit (length f.found) ≡ true = ground arith in
      let also : ltb limit (length (f.found ++ rest)) ≡ true = ground arith in
      rw (e, same, cut, also) refl

  finish-whole :
      (limit : ℕ) (schedule : List ShrinkAction) (result : Result Frontier Frontier) (g : Frontier)
      → BoundedResult (limit + 1) result g
      → finish_batch source to_vec blake3_hash planned current limit schedule result
        ≡ batch_from limit
            (collect
              (removal_proposals schedule 0 schedule
                ++ concat (entry_proposals schedule 0 schedule))
              g).found
  finish-whole limit schedule (ok f) g b =
      let removals = removal_proposals schedule 0 schedule in
      let entries = entry_proposals schedule 0 schedule in
      let removed = Bounded-push_all (limit + 1) removals f g b in
      let final =
        Bounded-push_entries (limit + 1) entries
          (push_all source to_vec blake3_hash planned current (limit + 1) removals f)
          (collect removals g) removed in
      rw (collect-append removals (concat entries) g) (Bounded-batch_from limit _ _ final)
  finish-whole limit schedule (err f) g (full, b) =
      let removals = removal_proposals schedule 0 schedule in
      let entries = entry_proposals schedule 0 schedule in
      let final = Bounded-collect (limit + 1) (removals ++ concat entries) f g full b in
      let cut : ltb limit (length f.found) ≡ true = ground arith in
      subst
        (λ test.
          record { candidates = take limit f.found; truncated = test }
          ≡ batch_from limit (collect (removals ++ concat entries) g).found)
        cut (Bounded-batch_from limit f _ final)

  -- The loops, which stop early, give what the whole frontier gives when it is cut at the limit, and
  -- they report a truncation exactly if the whole frontier is longer than the limit.
  pub batch-whole_frontier :
      (limit : ℕ) (schedule : List ShrinkAction)
      → batch_of source to_vec blake3_hash planned current limit schedule
        ≡ batch_from limit (whole_frontier schedule)
  unfolding batch_of
  batch-whole_frontier limit schedule =
      let chunks = all_chunk_proposals schedule in
      let after_chunks =
        Bounded-push_until_full (limit + 1) chunks empty_frontier empty_frontier
          (inl (refl, omega arith)) in
      let parted =
        collect-append chunks
          (removal_proposals schedule 0 schedule ++ concat (entry_proposals schedule 0 schedule))
          empty_frontier in
      finish-whole limit schedule _ (collect chunks empty_frontier) after_chunks
      ∙ ap (λ g. batch_from limit g.found) (sym parted)
