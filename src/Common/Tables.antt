-- ===== src/Common/Tables.antt =====
-- `BTreeMap` as an association list without an order, and lists addressed by position.
use Prim.Native.Nat.{ℕ, zero, suc}
use mathlib.Core.Path.{◌≡◌, refl, sym, subst, ◌∙◌}
use mathlib.Core.Logic.{◌⊎◌, inl, inr}
use mathlib.Core.Bool.{Bool, true}
use mathlib.Core.Option.{Option, none, some}
use mathlib.Core.List.{List, [], ◌∷◌}
use native.Mathlib.Omega.{arith}
use tx_proof.Common.Tests.{if◌then◌else◌, holds, Bool-cases}

module _ {A : Type 0} where
  abbrev pub one_later : Option (ℕ × A) → Option (ℕ × A)
  one_later none = none
  one_later (some (i, a)) = some (suc i, a)

  -- `iter().position(test)`, with the element at that position
  abbrev pub find_index : (A → Bool) → List A → Option (ℕ × A)
  find_index test [] = none
  find_index test (x ∷ xs) =
      let rest = find_index test xs in if test x then some (0, x) else one_later rest

  -- `xs[i] = a`
  abbrev pub set_elem : List A → ℕ → A → List A
  set_elem [] i a = []
  set_elem (x ∷ xs) zero a = a ∷ xs
  set_elem (x ∷ xs) (suc i) a = x ∷ set_elem xs i a

module _ {K V : Type 0} (same : Discrete K) where
  abbrev pub lookup : List (K × V) → K → Option V
  lookup [] key = none
  lookup ((k, v) ∷ rest) key = if holds (same k key) then some v else lookup rest key

  -- `insert`: the value of a key that is there is replaced
  abbrev pub insert_entry : List (K × V) → K → V → List (K × V)
  insert_entry [] key value = (key, value) ∷ []
  insert_entry ((k, v) ∷ rest) key value =
      let others = insert_entry rest key value in
      if holds (same k key) then (key, value) ∷ rest else (k, v) ∷ others

  pub lookup-insert_same :
      (entries : List (K × V)) (key : K) (value : V)
      → lookup (insert_entry entries key value) key ≡ some value
  lookup-insert_same [] key value = elim (same key key) [
    | yes e ↦ ground arith
    | no n ↦ absurd (n refl)
  ]
  lookup-insert_same ((k, v) ∷ rest) key value = elim (same k key) [
    | yes e ↦ elim (same key key) [ yes r ↦ ground arith | no n ↦ absurd (n refl) ]
    | no n ↦ ground (arith, lookup-insert_same rest key value)
  ]

  -- A new entry leaves those of other keys.
  pub lookup-insert_new :
      (entries : List (K × V)) (key new : K) (entry value : V)
      → lookup entries new ≡ none
      → lookup entries key ≡ some entry
      → lookup (insert_entry entries new value) key ≡ some entry
  lookup-insert_new [] key new entry value fresh h = cc
  lookup-insert_new ((k, v) ∷ rest) key new entry value fresh h = elim (same k new) [
    | yes e ↦ ground arith
    | no n ↦ elim (same k key) [
      | yes e ↦ ground arith
      | no m ↦ ground (arith, lookup-insert_new rest key new entry value)
    ]
  ]

  lookup-insert_other :
      (entries : List (K × V)) (key new : K) (value : V)
      → (key ≡ new → ⊥)
      → lookup (insert_entry entries new value) key ≡ lookup entries key
  lookup-insert_other [] key new value differs = elim (same new key) [
    | yes e ↦ absurd (differs (sym e))
    | no n ↦ ground arith
  ]
  lookup-insert_other ((k, v) ∷ rest) key new value differs = elim (same k new) [
    | yes e ↦ elim (same k key) [
      | yes e' ↦ absurd (differs (sym e' ∙ e))
      | no m ↦ elim (same new key) [ yes q ↦ absurd (differs (sym q)) | no q ↦ ground arith ]
    ]
    | no n ↦ elim (same k key) [
      | yes e ↦ ground arith
      | no m ↦ ground (arith, lookup-insert_other rest key new value)
    ]
  ]

  -- An insertion is seen at its key, and only there.
  pub lookup-insert_cases :
      (entries : List (K × V)) (key new : K) (value : V)
      → ((key ≡ new) × (lookup (insert_entry entries new value) key ≡ some value))
        ⊎ ((key ≡ new → ⊥) × (lookup (insert_entry entries new value) key ≡ lookup entries key))
  lookup-insert_cases entries key new value = elim (same key new) [
    | yes e ↦ inl (
      e,
      subst (λ k. lookup (insert_entry entries new value) k ≡ some value) (sym e)
          (lookup-insert_same entries new value),
    )
    | no n ↦ inr (n, lookup-insert_other entries key new value n)
  ]

module _ {A : Type 0} where
  one_later-some :
      (found : Option (ℕ × A)) (i : ℕ) (a : A)
      → one_later found ≡ some (i, a)
      → (j : ℕ) × (i ≡ suc j) × (found ≡ some (j, a))
  one_later-some none i a h = cc
  one_later-some (some (j, b)) i a h = (j, cc, cc)

  -- The head is found, or an element of the tail.
  pub find_index-cases :
      (test : A → Bool) (x : A) (xs : List A) (i : ℕ) (a : A)
      → find_index test (x ∷ xs) ≡ some (i, a)
      → ((i ≡ 0) × (a ≡ x) × (test x ≡ true))
        ⊎ ((j : ℕ) × (i ≡ suc j) × (find_index test xs ≡ some (j, a)))
  find_index-cases test x xs i a h = elim (Bool-cases (test x)) [
    | inl t ↦ (let g = rw t at h in inl (cc, cc, t))
    | inr f ↦ inr (one_later-some (find_index test xs) i a (rw f at h))
  ]
