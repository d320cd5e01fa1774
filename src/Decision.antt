-- ===== src/Decision.antt =====
-- crates/tiv-core/src/decision.rs: one choice from a stable ordering of the eligible set. The
-- generator of `rand_chacha` is a parameter, with the documented range of `random_range`.
pub mod Sorted
pub mod Choice
use Prim.Native.Nat.Ordering.{lt, eq, gt}
use tx_proof.Common.{ℕ, ◌+◌, ◌<◌, List, [], ◌∷◌, length, get_or, Result, ok, err, wrap64}
use tx_proof.Order.{Ord}

pub record RandomSource (R : Type 0) : Type 0 where
  pub seed_from_u64 : ℕ → R
  pub random_range : R → ℕ → ℕ × R
  pub random_range_lt : (rng : R) (n : ℕ) → 0 < n → (random_range rng n).0 < n

pub record Decision (T : Type 0) : Type 0 where
  pub selected : T
  pub ordinal : ℕ
  pub eligible_count : ℕ

pub data NoEligibleActions : Type 0 where
  no_eligible_actions : NoEligibleActions

pub record DecisionEngine (R : Type 0) : Type 0 where
  pub rng : R
  pub decision_number : ℕ

module _ {T : Type 0} (order : Ord T) where
  unfoldable pub insert : T → List T → List T
  insert x [] = x ∷ []
  insert x (y ∷ ys) = elim (order.cmp x y) [ gt ↦ y ∷ insert x ys | _ ↦ x ∷ y ∷ ys ]

  -- `Vec::sort_unstable`: equal elements are the same, so every sort gives this list.
  unfoldable pub sort : List T → List T
  unfolding insert
  sort [] = []
  sort (x ∷ xs) = insert x (sort xs)

  -- The elements after `x` that differ from the one before them
  unfoldable pub distinct_after : T → List T → List T
  distinct_after x [] = []
  distinct_after x (y ∷ ys) = elim (order.cmp x y) [
    | eq ↦ distinct_after x ys
    | _ ↦ y ∷ distinct_after y ys
  ]

  -- `Vec::dedup`
  unfoldable pub dedup : List T → List T
  unfolding distinct_after
  dedup [] = []
  dedup (x ∷ xs) = x ∷ distinct_after x xs

module _ {R T : Type 0} (source : RandomSource R) (order : Ord T) where
  unfoldable pub new_engine : ℕ → DecisionEngine R
  new_engine seed = record { rng = source.seed_from_u64 seed; decision_number = 0 }

  -- `swap_remove` panics past the end, where this takes the first element: `random_range_lt`
  -- keeps the index below the length.
  unfoldable pub choose_sorted :
      DecisionEngine R → List T → Result NoEligibleActions (Decision T) × DecisionEngine R
  choose_sorted engine [] = (err no_eligible_actions, engine)
  choose_sorted engine (x ∷ xs) =
      let (selected_index, rng) = source.random_range engine.rng (length (x ∷ xs)) in
      (
        ok (record {
          selected = get_or (x ∷ xs) selected_index x;
          ordinal = engine.decision_number;
          eligible_count = length (x ∷ xs);
        }),
        record { rng = rng; decision_number = wrap64 (engine.decision_number + 1) },
      )

  unfoldable pub choose :
      DecisionEngine R → List T → Result NoEligibleActions (Decision T) × DecisionEngine R
  unfolding sort dedup choose_sorted
  choose engine eligible = choose_sorted engine (dedup order (sort order eligible))
