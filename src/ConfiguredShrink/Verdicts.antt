-- ===== src/ConfiguredShrink/Verdicts.antt =====
-- crates/tiv-runtime/src/configured_replay.rs and configured_shrink.rs: what one attempt says.
use tx_proof.Common.{
  ◌≡◌, ◌⊎◌, inl, inr, refl, arith, Bool, true, false, Option, some, List, [], ◌∷◌, contains,
  contains-Member, Member-contains, Member, Bool-cases,
}
use tx_proof.Reproduction.{FailureIdentity, failure_discrete, AttemptResult, violation, matches}
use tx_proof.ConfiguredShrink.Effects.{
  ConfiguredInvariantOutcome, AttemptVerdict, expected_violation, other_violation,
}
use tx_proof.ConfiguredShrink.Attempts.{
  identity_before, insert_identity, sort_identities, violations, first_violation, attempt_result,
  verdict_of,
}

-- An attempt holds exactly if nothing was violated; a violation that it names was found, and is the
-- expected one wherever that was found too.
abbrev pub IsVerdict : FailureIdentity → List ConfiguredInvariantOutcome → AttemptResult → Type 0
IsVerdict expected outcomes AttemptResult.held = violations outcomes ≡ []
IsVerdict expected outcomes (violation found) =
    Member found (violations outcomes) × (Member expected (violations outcomes) → found ≡ expected)
IsVerdict expected outcomes AttemptResult.inconclusive = ⊥

insert-Member :
    (found x : FailureIdentity) (rest : List FailureIdentity)
    → Member x (insert_identity found rest)
    → (x ≡ found) ⊎ Member x rest
insert-Member found x [] m = m
insert-Member found x (first ∷ rest) m = elim (Bool-cases (identity_before first found)) [
  | inl e ↦
      let m' : Member x (first ∷ insert_identity found rest) = rw e at m in
      elim m' [
        | inl same ↦ inr (inl same)
        | inr later ↦ elim (insert-Member found x rest later) [
          | inl q ↦ inl q
          | inr q ↦ inr (inr q)
        ]
      ]
  | inr e ↦ let m' : Member x (found ∷ first ∷ rest) = rw e at m in m'
]

sort-Member :
    (x : FailureIdentity) (found : List FailureIdentity)
    → Member x (sort_identities found)
    → Member x found
sort-Member x [] m = m
sort-Member x (first ∷ rest) m = elim (insert-Member first x (sort_identities rest) m) [
  | inl e ↦ inl e
  | inr later ↦ inr (sort-Member x rest later)
]

insert-nonempty :
    (found : FailureIdentity) (rest : List FailureIdentity) → ¬ (insert_identity found rest ≡ [])
insert-nonempty found [] h = cc
insert-nonempty found (first ∷ rest) h = ground arith

sort-empty : (found : List FailureIdentity) → sort_identities found ≡ [] → found ≡ []
sort-empty [] h = refl
sort-empty (first ∷ rest) h = absurd (insert-nonempty first (sort_identities rest) h)

first-IsVerdict :
    (expected : FailureIdentity) (outcomes : List ConfiguredInvariantOutcome)
    (sorted : List FailureIdentity)
    → sort_identities (violations outcomes) ≡ sorted
    → ¬ Member expected (violations outcomes)
    → IsVerdict expected outcomes (first_violation sorted)
first-IsVerdict expected outcomes [] h missing = sort-empty (violations outcomes) h
first-IsVerdict expected outcomes (first ∷ rest) h missing =
    (sort-Member first (violations outcomes) (rw h (inl refl)), λ m. absurd (missing m))

-- Whatever outcomes an attempt has, its result is never inconclusive: it holds exactly if nothing was
-- violated, and otherwise names a violation that was found, the expected one wherever it was found.
pub attempt_result-IsVerdict :
    (expected : FailureIdentity) (outcomes : List ConfiguredInvariantOutcome)
    → IsVerdict expected outcomes (attempt_result expected outcomes)
unfolding attempt_result
attempt_result-IsVerdict expected outcomes =
    elim (Bool-cases (contains failure_discrete (violations outcomes) expected)) [
      | inl e ↦
          rw e ((Member-contains failure_discrete (violations outcomes) expected e, λ m. refl))
      | inr e ↦ rw e (
          first-IsVerdict expected outcomes (sort_identities (violations outcomes)) refl (λ m.
            let found = contains-Member failure_discrete (violations outcomes) expected m in cc))
    ]

pub verdict_of-some :
    (expected : FailureIdentity) (outcomes : List ConfiguredInvariantOutcome)
    (result : AttemptResult)
    → IsVerdict expected outcomes result
    → (verdict : AttemptVerdict × Option FailureIdentity) × (verdict_of expected result
        ≡ some verdict)
verdict_of-some expected outcomes AttemptResult.held h = (_, refl)
verdict_of-some expected outcomes (violation found) h = (_, refl)
verdict_of-some expected outcomes AttemptResult.inconclusive h = elim h [ ]

-- Whether a recorded attempt found the expected failure.
abbrev pub is_expected : AttemptVerdict → Bool
is_expected AttemptVerdict.held = false
is_expected expected_violation = true
is_expected other_violation = false

pub verdict_of-matches :
    (expected : FailureIdentity) (result : AttemptResult)
    (verdict : AttemptVerdict × Option FailureIdentity)
    → verdict_of expected result ≡ some verdict
    → is_expected verdict.0 ≡ matches expected result
verdict_of-matches expected AttemptResult.held verdict h = ground arith
verdict_of-matches expected AttemptResult.inconclusive verdict h = cc
verdict_of-matches expected (violation found) verdict h = elim (failure_discrete found expected) [
  | yes e ↦ ground arith
  | no n ↦ ground arith
]
