-- ===== src/Decision/Sorted.antt =====
-- crates/tiv-core/src/decision.rs: sorting and removing duplicates leave the ascending list of the
-- elements, which depends on the set of the elements alone.
use Prim.Native.Nat.{Ordering}
use Prim.Native.Nat.Ordering.{lt, eq, gt}
use tx_proof.Common.{
  ◌≡◌, ◌≢◌, refl, sym, subst, ap₂, ◌∙◌, arith, List, [], ◌∷◌, Member, All, All-member, All-imp, ◌↔◌,
  ◌⊎◌, inl, inr,
}
use tx_proof.Order.{Ord}
use tx_proof.Decision.{insert, sort, distinct_after, dedup}

gt-cases : (o : Ordering) → (o ≡ gt) ⊎ (o ≢ gt)
gt-cases o = ground arith

eq-cases : (o : Ordering) → (o ≡ eq) ⊎ (o ≢ eq)
eq-cases o = ground arith

module _ {T : Type 0} (order : Ord T) where
  abbrev pub Ascending : List T → Type 0
  Ascending [] = Unit
  Ascending (x ∷ xs) = All (λ y. order.cmp x y ≡ lt) xs × Ascending xs

  abbrev IsSorted : List T → Type 0
  IsSorted [] = Unit
  IsSorted (x ∷ xs) = All (λ y. order.cmp x y ≢ gt) xs × IsSorted xs

  Member-insert : (a x : T) (xs : List T) → Member a (insert order x xs) → Member a (x ∷ xs)
  unfolding insert
  Member-insert a x [] m = m
  Member-insert a x (y ∷ ys) m = ground (arith, Member-insert a x ys)

  insert-Member : (a x : T) (xs : List T) → Member a (x ∷ xs) → Member a (insert order x xs)
  unfolding insert
  insert-Member a x [] m = m
  insert-Member a x (y ∷ ys) m = ground (arith, insert-Member a x ys)

  pub Member-sort : (a : T) (xs : List T) → Member a (sort order xs) → Member a xs
  unfolding sort
  Member-sort a [] m = m
  Member-sort a (x ∷ xs) m = elim (Member-insert a x (sort order xs) m) [
    | inl e ↦ inl e
    | inr k ↦ inr (Member-sort a xs k)
  ]

  pub sort-Member : (a : T) (xs : List T) → Member a xs → Member a (sort order xs)
  unfolding sort
  sort-Member a [] m = m
  sort-Member a (x ∷ xs) (inl e) = insert-Member a x (sort order xs) (inl e)
  sort-Member a (x ∷ xs) (inr m) = insert-Member a x (sort order xs) (inr (sort-Member a xs m))

  All-insert : (P : T → Type 0) (x : T) (xs : List T) → P x → All P xs → All P (insert order x xs)
  unfolding insert
  All-insert P x [] p h = (p, tt)
  All-insert P x (y ∷ ys) p h = ground (arith, All-insert P x ys)

  not_gt_trans : (a b c : T) → order.cmp a b ≢ gt → order.cmp b c ≢ gt → order.cmp a c ≢ gt
  not_gt_trans a b c =
      ground (arith, order.lt_trans a b c, order.eq_of_cmp a b, order.eq_of_cmp b c)

  insert-after :
      (x y : T) (ys : List T) → order.cmp x y ≡ gt → insert order x (y ∷ ys) ≡ y ∷ insert order x ys
  unfolding insert
  insert-after x y ys e = ground arith

  insert-before :
      (x y : T) (ys : List T) → order.cmp x y ≢ gt → insert order x (y ∷ ys) ≡ x ∷ y ∷ ys
  unfolding insert
  insert-before x y ys n = ground arith

  insert-IsSorted : (x : T) (xs : List T) → IsSorted xs → IsSorted (insert order x xs)
  insert-IsSorted x [] s = unfold insert in (tt, tt)
  insert-IsSorted x (y ∷ ys) s = elim (gt-cases (order.cmp x y)) [
    | inl after ↦ subst IsSorted (sym (insert-after x y ys after)) (
      All-insert (λ z. order.cmp y z ≢ gt) x ys (ground (arith, order.lt_of_gt x y)) s.0,
      insert-IsSorted x ys s.1,
    )
    | inr before ↦
        subst IsSorted (sym (insert-before x y ys before))
          ((before, All-imp (λ z. not_gt_trans x y z before) ys s.0), s)
  ]

  sort-IsSorted : (xs : List T) → IsSorted (sort order xs)
  unfolding sort
  sort-IsSorted [] = tt
  sort-IsSorted (x ∷ xs) = insert-IsSorted x (sort order xs) (sort-IsSorted xs)

  distinct_after-skip :
      (x y : T) (ys : List T)
      → order.cmp x y ≡ eq
      → distinct_after order x (y ∷ ys) ≡ distinct_after order x ys
  unfolding distinct_after
  distinct_after-skip x y ys e = ground arith

  distinct_after-keep :
      (x y : T) (ys : List T)
      → order.cmp x y ≢ eq
      → distinct_after order x (y ∷ ys) ≡ y ∷ distinct_after order y ys
  unfolding distinct_after
  distinct_after-keep x y ys n = ground arith

  distinct_after-Ascending :
      (x : T) (xs : List T) → IsSorted (x ∷ xs) → Ascending (x ∷ distinct_after order x xs)
  distinct_after-Ascending x [] s = unfold distinct_after in (tt, tt)
  distinct_after-Ascending x (y ∷ ys) s = elim (eq-cases (order.cmp x y)) [
    | inl same ↦
        subst (λ l. Ascending (x ∷ l)) (sym (distinct_after-skip x y ys same))
          (distinct_after-Ascending x ys (s.0.1, s.1.1))
    | inr differ ↦
        let below : order.cmp x y ≡ lt = ground (arith, s.0.0) in
        let rest = distinct_after-Ascending y ys s.1 in
        subst (λ l. Ascending (x ∷ l)) (sym (distinct_after-keep x y ys differ))
          (
            (below, All-imp (λ z. order.lt_trans x y z below) (distinct_after order y ys) rest.0),
            rest,
          )
  ]

  Member-distinct :
      (a x : T) (xs : List T) → Member a (x ∷ distinct_after order x xs) → Member a (x ∷ xs)
  unfolding distinct_after
  Member-distinct a x [] m = m
  Member-distinct a x (y ∷ ys) m =
      ground (arith, Member-distinct a x ys, Member-distinct a y ys, order.eq_of_cmp x y)

  distinct-Member :
      (a x : T) (xs : List T) → Member a (x ∷ xs) → Member a (x ∷ distinct_after order x xs)
  unfolding distinct_after
  distinct-Member a x [] m = m
  distinct-Member a x (y ∷ ys) m =
      ground (arith, distinct-Member a x ys, distinct-Member a y ys, order.eq_of_cmp x y)

  -- The set of the elements, as an ascending list.
  pub dedup-sort-Ascending : (xs : List T) → Ascending (dedup order (sort order xs))
  dedup-sort-Ascending xs = go (sort order xs) (sort-IsSorted xs)
    where
      go : (l : List T) → IsSorted l → Ascending (dedup order l)
      go [] s = unfold dedup in tt
      go (x ∷ l) s = unfold dedup in distinct_after-Ascending x l s

  Member-dedup : (a : T) (xs : List T) → Member a (dedup order xs) → Member a xs
  unfolding dedup
  Member-dedup a [] m = m
  Member-dedup a (x ∷ xs) m = Member-distinct a x xs m

  dedup-Member : (a : T) (xs : List T) → Member a xs → Member a (dedup order xs)
  unfolding dedup
  dedup-Member a [] m = m
  dedup-Member a (x ∷ xs) m = distinct-Member a x xs m

  pub Member-dedup-sort :
      (a : T) (xs : List T) → Member a (dedup order (sort order xs)) ↔ Member a xs
  Member-dedup-sort a xs = (
    λ m. Member-sort a xs (Member-dedup a (sort order xs) m),
    λ m. dedup-Member a (sort order xs) (sort-Member a xs m),
  )

  not_below_itself : (a : T) → order.cmp a a ≡ lt → ⊥
  not_below_itself a h = cc (order.cmp_refl a)

  -- The first of an ascending list is not among the rest.
  least-fresh : (x : T) (xs : List T) → All (λ y. order.cmp x y ≡ lt) xs → Member x xs → ⊥
  least-fresh x xs low m = not_below_itself x (All-member (λ y. order.cmp x y ≡ lt) xs x low m)

  Ascending-head :
      (x y : T) (xs ys : List T)
      → Ascending (x ∷ xs)
      → Ascending (y ∷ ys)
      → Member x (y ∷ ys)
      → Member y (x ∷ xs)
      → x ≡ y
  Ascending-head x y xs ys s t (inl e) n = e
  Ascending-head x y xs ys s t (inr m) (inl e) = sym e
  Ascending-head x y xs ys s t (inr m) (inr n) =
      let below = All-member (λ z. order.cmp x z ≡ lt) xs y s.0 n in
      let above = All-member (λ z. order.cmp y z ≡ lt) ys x t.0 m in
      absurd (not_below_itself x (order.lt_trans x y x below above))

  tail-Member :
      (x y : T) (xs ys : List T)
      → x ≡ y
      → Ascending (x ∷ xs)
      → ((a : T) → Member a (x ∷ xs) → Member a (y ∷ ys))
      → (a : T) → Member a xs
      → Member a ys
  tail-Member x y xs ys same s f a m = elim (f a (inr m)) [
    | inl e ↦ absurd (least-fresh x xs s.0 (subst (λ z. Member z xs) (e ∙ sym same) m))
    | inr n ↦ n
  ]

  -- Two ascending lists with the same elements are the same list.
  pub Ascending-ext :
      (xs ys : List T)
      → Ascending xs
      → Ascending ys
      → ((a : T) → Member a xs → Member a ys)
      → ((a : T) → Member a ys → Member a xs)
      → xs ≡ ys
  Ascending-ext [] [] s t f g = refl
  Ascending-ext [] (y ∷ ys) s t f g = elim (g y (inl refl)) [ ]
  Ascending-ext (x ∷ xs) [] s t f g = elim (f x (inl refl)) [ ]
  Ascending-ext (x ∷ xs) (y ∷ ys) s t f g =
      let same = Ascending-head x y xs ys s t (f x (inl refl)) (g y (inl refl)) in
      let tails =
        Ascending-ext xs ys s.1 t.1 (tail-Member x y xs ys same s f)
          (tail-Member y x ys xs (sym same) t g) in
      ap₂ (λ (a : T) (l : List T). a ∷ l) same tails
