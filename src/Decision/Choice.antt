-- ===== src/Decision/Choice.antt =====
-- crates/tiv-core/src/decision.rs: what a choice returns, and that it depends on the set alone.
use tx_proof.Common.{
  ℕ, zero, suc, ◌<◌, ◌≡◌, refl, sym, arith, ap, List, [], ◌∷◌, length, get_or, Member, inl, inr,
  Result, ok, err, ◌↔◌, wrap64, ◌+◌,
}
use tx_proof.Order.{Ord}
use tx_proof.Decision.{
  RandomSource, Decision, DecisionEngine, NoEligibleActions, sort, dedup, choose_sorted, choose,
}
use tx_proof.Decision.Sorted.{dedup-sort-Ascending, Member-dedup-sort, Ascending-ext}

module _ {T : Type 0} where
  Member-get_or : (xs : List T) (i : ℕ) (d : T) → i < length xs → Member (get_or xs i d) xs
  Member-get_or [] i d h = elim h [ ]
  Member-get_or (x ∷ xs) zero d h = inl refl
  Member-get_or (x ∷ xs) (suc i) d h = inr (Member-get_or xs i d (omega arith))

  no_members : (xs : List T) → ((a : T) → Member a xs → Member a []) → xs ≡ []
  no_members [] h = refl
  no_members (x ∷ xs) h = elim (h x (inl refl)) [ ]

module _ {R T : Type 0} (source : RandomSource R) (order : Ord T) where
  -- An empty set is refused and leaves the engine alone. Otherwise a member is selected, the
  -- decision carries the engine's number, and the number goes up by one.
  abbrev pub IsChoice :
      DecisionEngine R → List T → Result NoEligibleActions (Decision T) × DecisionEngine R → Type 0
  IsChoice engine eligible (err _, engine') = (eligible ≡ []) × (engine' ≡ engine)
  IsChoice engine eligible (ok decision, engine') =
      Member decision.selected eligible
      × (decision.eligible_count ≡ length (dedup order (sort order eligible)))
      × (decision.ordinal ≡ engine.decision_number)
      × (engine'.decision_number ≡ wrap64 (engine.decision_number + 1))

  choose_sorted-IsChoice :
      (engine : DecisionEngine R) (eligible distinct : List T)
      → dedup order (sort order eligible) ≡ distinct
      → ((a : T) → Member a distinct → Member a eligible)
      → ((a : T) → Member a eligible → Member a distinct)
      → IsChoice engine eligible (choose_sorted source order engine distinct)
  unfolding choose_sorted
  choose_sorted-IsChoice engine eligible [] e back onto = (no_members eligible onto, refl)
  choose_sorted-IsChoice engine eligible (x ∷ xs) e back onto = (
    back _ (
        Member-get_or (x ∷ xs) _ x
          (source.random_range_lt engine.rng (length (x ∷ xs)) (omega arith))),
    ap length (sym e),
    refl,
    refl,
  )

  -- Every choice is as described: it fails exactly on an empty set, without consuming a decision.
  pub choose-IsChoice :
      (engine : DecisionEngine R) (eligible : List T)
      → IsChoice engine eligible (choose source order engine eligible)
  unfolding choose
  choose-IsChoice engine eligible =
      choose_sorted-IsChoice engine eligible (dedup order (sort order eligible)) refl
        (λ a. (Member-dedup-sort order a eligible).0) (λ a. (Member-dedup-sort order a eligible).1)

  -- Two lists with the same elements, in whatever order and number, lead to the same choice.
  pub choose-set :
      (engine : DecisionEngine R) (xs ys : List T)
      → ((a : T) → Member a xs ↔ Member a ys)
      → choose source order engine xs ≡ choose source order engine ys
  unfolding choose
  choose-set engine xs ys same = ap (choose_sorted source order engine) (
      Ascending-ext order (dedup order (sort order xs)) (dedup order (sort order ys))
        (dedup-sort-Ascending order xs) (dedup-sort-Ascending order ys)
        (λ a m. (Member-dedup-sort order a ys).1 ((same a).0 ((Member-dedup-sort order a xs).0 m)))
        (λ a m. (Member-dedup-sort order a xs).1 ((same a).1 ((Member-dedup-sort order a ys).0 m))))
