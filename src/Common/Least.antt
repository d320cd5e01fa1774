-- ===== src/Common/Least.antt =====
-- The length of a shortest list with a property, and the operations on such lengths.
use Prim.Native.Nat.{ℕ, suc, ◌≤◌, min}
use mathlib.Core.Path.{◌≡◌, ap}
use mathlib.Core.Logic.{◌⊎◌, inl, inr}
use mathlib.Core.List.{List, [], ◌∷◌}
use mathlib.Core.Option.{Option, none, some}
use native.Mathlib.Omega.{arith}
use tx_proof.Common.Lists.{length}

-- `Iterator::min` over two results, of which each may be missing.
abbrev pub least : Option ℕ → Option ℕ → Option ℕ
least none other = other
least (some distance) none = some distance
least (some distance) (some other) = some (min distance other)

abbrev pub one_more : Option ℕ → Option ℕ
one_more none = none
one_more (some distance) = some (suc distance)

module _ {A : Type 0} where
  -- `none` says that no list has the property, `some d` that a shortest one has length `d`.
  abbrev pub Shortest : (List A → Type 0) → Option ℕ → Type 0
  Shortest P none = (xs : List A) → ¬ P xs
  Shortest P (some d) =
      ((xs : List A) × (length xs ≡ d) × P xs) × ((xs : List A) → P xs → d ≤ length xs)

  pub Shortest-iff :
      (P Q : List A → Type 0) (r : Option ℕ)
      → ((xs : List A) → P xs → Q xs)
      → ((xs : List A) → Q xs → P xs)
      → Shortest P r
      → Shortest Q r
  Shortest-iff P Q none f g h = λ xs q. h xs (g xs q)
  Shortest-iff P Q (some d) f g ((xs, e, p), low) = ((xs, e, f xs p), λ ys q. low ys (g ys q))

  Shortest-both :
      (P Q : List A → Type 0) (c d : ℕ)
      → Shortest P (some c)
      → Shortest Q (some d)
      → (c ≤ d) ⊎ (d ≤ c)
      → Shortest (λ xs. P xs ⊎ Q xs) (some (min c d))
  Shortest-both P Q c d ((xs, e, p), low) ((ys, f, q), low') (inl h) = (
    (xs, omega arith, inl p),
    λ zs either. elim either [
      | inl p' ↦ omega (arith, low zs p')
      | inr q' ↦ omega (arith, low' zs q')
    ],
  )
  Shortest-both P Q c d ((xs, e, p), low) ((ys, f, q), low') (inr h) = (
    (ys, omega arith, inr q),
    λ zs either. elim either [
      | inl p' ↦ omega (arith, low zs p')
      | inr q' ↦ omega (arith, low' zs q')
    ],
  )

  pub Shortest-least :
      (P Q : List A → Type 0) (r s : Option ℕ)
      → Shortest P r
      → Shortest Q s
      → Shortest (λ xs. P xs ⊎ Q xs) (least r s)
  Shortest-least P Q none none h k = λ xs either. elim either [ inl p ↦ h xs p | inr q ↦ k xs q ]
  Shortest-least P Q none (some d) h ((ys, f, q), low) =
      ((ys, f, inr q), λ zs either. elim either [ inl p ↦ absurd (h zs p) | inr q' ↦ low zs q' ])
  Shortest-least P Q (some c) none ((xs, e, p), low) k =
      ((xs, e, inl p), λ zs either. elim either [ inl p' ↦ low zs p' | inr q ↦ absurd (k zs q) ])
  Shortest-least P Q (some c) (some d) h k = Shortest-both P Q c d h k (grind arith)

  -- One more element in front: `Q` holds of no empty list, and of a longer one as `P` of its tail.
  pub Shortest-one_more :
      (P Q : List A → Type 0) (r : Option ℕ)
      → ¬ Q []
      → ((x : A) (xs : List A) → Q (x ∷ xs) → P xs)
      → ((xs : List A) → P xs → (x : A) × Q (x ∷ xs))
      → Shortest P r
      → Shortest Q (one_more r)
  Shortest-one_more P Q none empty back onto h = λ xs q. longer xs q
    where
      longer : (xs : List A) → Q xs → ⊥
      longer [] q = empty q
      longer (x ∷ xs) q = h xs (back x xs q)
  Shortest-one_more P Q (some d) empty back onto ((xs, e, p), low) =
      let (x, q) = onto xs p in ((x ∷ xs, ap suc e, q), longer)
    where
      longer : (xs : List A) → Q xs → suc d ≤ length xs
      longer [] q = absurd (empty q)
      longer (x ∷ xs) q = omega (arith, low xs (back x xs q))
