-- ===== src/Reproduction.antt =====
-- crates/tiv-core/src/result.rs: failures by identity, and how three attempts classify one.
use mathlib.Core.Path.{ap}
use tx_proof.Common.{
  ℕ, ◌≡◌, ◌==◌, refl, arith, Bool, true, false, String, string_discrete, [], ◌∷◌, filter, length,
  holds, is_blank, Result, ok, err, if◌then◌else◌, ◌⊎◌, inl, inr,
}

pub data InvalidIdentifier : Type 0 where
  empty : InvalidIdentifier

pub record InvariantId : Type 0 where
  pub value : String

pub record CheckpointId : Type 0 where
  pub value : String

-- `InvariantId::new`
unfoldable new_invariant_id : String → Result InvalidIdentifier InvariantId
new_invariant_id value = if is_blank value then err empty else ok (record { value = value })

-- `CheckpointId::new`
unfoldable new_checkpoint_id : String → Result InvalidIdentifier CheckpointId
new_checkpoint_id value = if is_blank value then err empty else ok (record { value = value })

pub record FailureIdentity : Type 0 where
  pub invariant : InvariantId
  pub checkpoint : CheckpointId

pub data AttemptResult : Type 0 where
  held : AttemptResult
  violation : FailureIdentity → AttemptResult
  inconclusive : AttemptResult

pub data ReproductionClass : Type 0 where
  stable reproducible inconclusive : ReproductionClass

unfoldable pub failure_discrete : Discrete FailureIdentity
unfolding string_discrete
failure_discrete = hlevel string_discrete

abbrev pub matches : FailureIdentity → AttemptResult → Bool
matches expected held = false
matches expected (violation found) = holds (failure_discrete found expected)
matches expected AttemptResult.inconclusive = false

abbrev pub class_of : ℕ → ReproductionClass
class_of matching =
    if matching == 3
    then stable
    else if matching == 2
    then reproducible
    else ReproductionClass.inconclusive

-- `attempts` is the array of three
unfoldable pub classify_reproduction :
    FailureIdentity → AttemptResult → AttemptResult → AttemptResult → ReproductionClass
classify_reproduction expected first second third =
    class_of (length (filter (matches expected) (first ∷ second ∷ third ∷ [])))

-- The class says how many of the attempts found the expected failure.
abbrev pub IsClass :
    FailureIdentity → AttemptResult → AttemptResult → AttemptResult → ReproductionClass → Type 0
IsClass expected first second third stable =
    (first ≡ violation expected) × (second ≡ violation expected) × (third ≡ violation expected)
IsClass expected first second third reproducible =
    ((first ≡ violation expected) × (second ≡ violation expected) × ¬ (third ≡ violation expected))
    ⊎ (((first ≡ violation expected)
          × ¬ (second ≡ violation expected)
          × (third ≡ violation expected))
        ⊎ (¬ (first ≡ violation expected)
            × (second ≡ violation expected)
            × (third ≡ violation expected)))
IsClass expected first second third ReproductionClass.inconclusive =
    (¬ (first ≡ violation expected) × ¬ (second ≡ violation expected))
    ⊎ ((¬ (first ≡ violation expected) × ¬ (third ≡ violation expected))
        ⊎ (¬ (second ≡ violation expected) × ¬ (third ≡ violation expected)))

matches-found :
    (expected : FailureIdentity) (attempt : AttemptResult)
    → matches expected attempt ≡ true
    → attempt ≡ violation expected
matches-found expected held h = cc
matches-found expected AttemptResult.inconclusive h = cc
matches-found expected (violation found) h = elim (failure_discrete found expected) [
  | yes e ↦ ap violation e
  | no n ↦ ground arith
]

matches-missed :
    (expected : FailureIdentity) (attempt : AttemptResult)
    → matches expected attempt ≡ false
    → ¬ (attempt ≡ violation expected)
matches-missed expected held h e = cc
matches-missed expected AttemptResult.inconclusive h e = cc
matches-missed expected (violation found) h e = elim (failure_discrete found expected) [
  | yes same ↦ ground arith
  | no n ↦ n (cc)
]

-- Three attempts are stable if all of them, reproducible if exactly two of them, and otherwise
-- inconclusive, found exactly the expected failure.
pub classify-IsClass :
    (expected : FailureIdentity) (first second third : AttemptResult)
    → IsClass expected first second third (classify_reproduction expected first second third)
unfolding classify_reproduction
classify-IsClass expected first second third =
    by_matches (matches expected first) (matches expected second) (matches expected third) refl refl
      refl
  where
    by_matches :
        (a b c : Bool)
        → matches expected first ≡ a
        → matches expected second ≡ b
        → matches expected third ≡ c
        → IsClass expected first second third (classify_reproduction expected first second third)
    by_matches true true true p q r =
        rw (p, q, r)
          ((
            matches-found expected first p,
            matches-found expected second q,
            matches-found expected third r,
          ))
    by_matches true true false p q r =
        rw (p, q, r)
          (inl (
            matches-found expected first p,
            matches-found expected second q,
            matches-missed expected third r,
          ))
    by_matches true false true p q r =
        rw (p, q, r)
          (inr (
            inl (
              matches-found expected first p,
              matches-missed expected second q,
              matches-found expected third r,
            )))
    by_matches true false false p q r =
        rw (p, q, r) (inr (inr (matches-missed expected second q, matches-missed expected third r)))
    by_matches false true true p q r =
        rw (p, q, r)
          (inr (
            inr (
              matches-missed expected first p,
              matches-found expected second q,
              matches-found expected third r,
            )))
    by_matches false true false p q r =
        rw (p, q, r) (inr (inl (matches-missed expected first p, matches-missed expected third r)))
    by_matches false false true p q r =
        rw (p, q, r) (inl (matches-missed expected first p, matches-missed expected second q))
    by_matches false false false p q r =
        rw (p, q, r) (inl (matches-missed expected first p, matches-missed expected second q))
