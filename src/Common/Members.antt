-- ===== src/Common/Members.antt =====
-- Membership and universal predicates by recursion on the list, which the tactics take apart.
use Prim.Native.Nat.{ℕ, zero, suc}
use mathlib.Core.Path.{◌≡◌, sym, subst}
use mathlib.Core.Logic.{◌⊎◌, inl, inr}
use mathlib.Core.Bool.{Bool, true}
use mathlib.Core.List.{List, [], ◌∷◌, ◌++◌, map}
use mathlib.Core.Option.{some}
use native.Mathlib.Omega.{arith}
use tx_proof.Common.Tests.{Bool-cases, holds}
use tx_proof.Common.Lists.{filter, flat_map, get_elem?, any}

module _ {A : Type 0} where
  abbrev pub Member : A → List A → Type 0
  Member a [] = ⊥
  Member a (x ∷ xs) = (a ≡ x) ⊎ Member a xs

  abbrev pub All : (A → Type 0) → List A → Type 0
  All P [] = Unit
  All P (x ∷ xs) = P x × All P xs

module _ {A : Type 0} where
  pub All-member : (P : A → Type 0) (xs : List A) (a : A) → All P xs → Member a xs → P a
  All-member P [] a h m = elim m [ ]
  All-member P (x ∷ xs) a h (inl e) = subst P (sym e) h.0
  All-member P (x ∷ xs) a h (inr m) = All-member P xs a h.1 m

  pub All-append :
      (P : A → Type 0) (front back : List A) → All P front → All P back → All P (front ++ back)
  All-append P (first ∷ front) back (at_first, others) after =
      (at_first, All-append P front back others after)
  All-append P [] back before after = after

  pub All-map :
      {B : Type 0} (P : A → Type 0) (f : B → A) (xs : List B)
      → ((b : B) → P (f b))
      → All P (map f xs)
  All-map P f [] h = tt
  All-map P f (x ∷ xs) h = (h x, All-map P f xs h)

  pub All-map_of :
      {B : Type 0} (Q : B → Type 0) (P : A → Type 0) (f : B → A) (xs : List B)
      → ((b : B) → Q b → P (f b))
      → All Q xs
      → All P (map f xs)
  All-map_of Q P f [] h q = tt
  All-map_of Q P f (x ∷ xs) h q = (h x q.0, All-map_of Q P f xs h q.1)

  pub All-flat_map :
      {B : Type 0} (Q : B → Type 0) (P : A → Type 0) (f : B → List A) (xs : List B)
      → ((b : B) → Q b → All P (f b))
      → All Q xs
      → All P (flat_map f xs)
  All-flat_map Q P f [] h q = tt
  All-flat_map Q P f (x ∷ xs) h q =
      All-append P (f x) (flat_map f xs) (h x q.0) (All-flat_map Q P f xs h q.1)

  pub All-filter : (p : A → Bool) (xs : List A) → All (λ x. p x ≡ true) (filter p xs)
  All-filter p [] = tt
  All-filter p (x ∷ xs) = elim (Bool-cases (p x)) [
    | inl e ↦ rw e (e, All-filter p xs)
    | inr e ↦ rw e (All-filter p xs)
  ]

  pub All-imp : {P Q : A → Type 0} → ((a : A) → P a → Q a) → (xs : List A) → All P xs → All Q xs
  All-imp f [] h = tt
  All-imp f (x ∷ xs) h = (f x h.0, All-imp f xs h.1)

  pub Member-append_left : (a : A) (xs ys : List A) → Member a xs → Member a (xs ++ ys)
  Member-append_left a [] ys m = elim m [ ]
  Member-append_left a (x ∷ xs) ys (inl e) = inl e
  Member-append_left a (x ∷ xs) ys (inr m) = inr (Member-append_left a xs ys m)

  pub Member-append_right : (a : A) (xs ys : List A) → Member a ys → Member a (xs ++ ys)
  Member-append_right a [] ys m = m
  Member-append_right a (x ∷ xs) ys m = inr (Member-append_right a xs ys m)

  pub Member-filter : (p : A → Bool) (a : A) (xs : List A) → Member a (filter p xs) → Member a xs
  Member-filter p a [] m = m
  Member-filter p a (x ∷ xs) m = elim (Bool-cases (p x)) [
    | inl e ↦
        let m' : Member a (x ∷ filter p xs) = rw e at m in
        elim m' [ inl q ↦ inl q | inr q ↦ inr (Member-filter p a xs q) ]
    | inr e ↦ inr (Member-filter p a xs (rw e at m))
  ]

  pub Member-filter_of :
      (p : A → Bool) (a : A) (xs : List A) → p a ≡ true → Member a xs → Member a (filter p xs)
  Member-filter_of p a [] h m = m
  Member-filter_of p a (x ∷ xs) h (inl e) = let t : p x ≡ true = rw (← e) h in rw t (inl e)
  Member-filter_of p a (x ∷ xs) h (inr m) = elim (Bool-cases (p x)) [
    | inl e ↦ rw e (inr (Member-filter_of p a xs h m))
    | inr e ↦ rw e (Member-filter_of p a xs h m)
  ]

  pub Member-map :
      {B : Type 0} (f : B → A) (b : B) (xs : List B) → Member b xs → Member (f b) (map f xs)
  Member-map f b [] m = elim m [ ]
  Member-map f b (x ∷ xs) (inl e) = inl (rw e)
  Member-map f b (x ∷ xs) (inr m) = inr (Member-map f b xs m)

  pub Member-flat_map :
      {B : Type 0} (f : B → List A) (a : A) (b : B) (xs : List B)
      → Member b xs
      → Member a (f b)
      → Member a (flat_map f xs)
  Member-flat_map f a b [] m k = elim m [ ]
  Member-flat_map f a b (x ∷ xs) (inl e) k =
      Member-append_left a (f x) (flat_map f xs) (subst (λ y. Member a (f y)) e k)
  Member-flat_map f a b (x ∷ xs) (inr m) k =
      Member-append_right a (f x) (flat_map f xs) (Member-flat_map f a b xs m k)

  pub Member-get_elem? : (xs : List A) (i : ℕ) (a : A) → get_elem? xs i ≡ some a → Member a xs
  Member-get_elem? [] i a h = cc
  Member-get_elem? (x ∷ xs) zero a h = inl (cc)
  Member-get_elem? (x ∷ xs) (suc i) a h = inr (Member-get_elem? xs i a h)

  pub Member-some : (xs : List A) (a : A) → Member a xs → xs ≡ [] → ⊥
  Member-some [] a m e = elim m [ ]
  Member-some (x ∷ xs) a m e = cc

-- `slice.contains` and `BTreeSet::contains` for a type with decidable equality
module _ {A : Type 0} (same : Discrete A) where
  abbrev pub contains : List A → A → Bool
  contains xs a = any (λ x. holds (same x a)) xs

  pub Member-contains : (xs : List A) (a : A) → contains xs a ≡ true → Member a xs
  Member-contains [] a h = cc
  Member-contains (x ∷ xs) a h = elim (same x a) [
    | yes e ↦ inl (sym e)
    | no n ↦ inr (Member-contains xs a (ground arith))
  ]

  pub contains-Member : (xs : List A) (a : A) → Member a xs → contains xs a ≡ true
  contains-Member [] a m = elim m [ ]
  contains-Member (x ∷ xs) a m = elim (same x a) [
    | yes e ↦ ground arith
    | no n ↦ ground (arith, contains-Member xs a)
  ]
