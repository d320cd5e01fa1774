-- ===== src/ConfiguredShrink/Found.antt =====
-- crates/tiv-runtime/src/configured_shrink.rs: whether an attempt found the expected failure.
use tx_proof.Common.{
  ◌≡◌, inl, inr, refl, sym, ◌∙◌, subst, arith, Bool, true, false, ◌&&◌, ◌||◌, List, [], ◌∷◌, holds,
  contains, Member, Member-contains, contains-Member, ltb, Bool-cases,
}
use tx_proof.Reproduction.{FailureIdentity, failure_discrete, AttemptResult, violation, matches}
use tx_proof.ConfiguredShrink.Effects.{ConfiguredInvariantOutcome}
use tx_proof.ConfiguredShrink.Attempts.{attempt_result, violations}
use tx_proof.ConfiguredShrink.Verdicts.{IsVerdict, attempt_result-IsVerdict}

-- Whether the expected invariant was violated at the expected checkpoint.
abbrev pub finds : FailureIdentity → List ConfiguredInvariantOutcome → Bool
finds expected [] = false
finds expected (outcome ∷ outcomes) =
    let others = finds expected outcomes in
    (holds (failure_discrete outcome.identity expected) && ltb 0 outcome.witness_count) || others

contains-finds :
    (expected : FailureIdentity) (outcomes : List ConfiguredInvariantOutcome)
    → contains failure_discrete (violations outcomes) expected ≡ finds expected outcomes
contains-finds expected [] = refl
contains-finds expected (outcome ∷ outcomes) =
    let others = contains-finds expected outcomes in
    elim (Bool-cases (ltb 0 outcome.witness_count)) [
      | inl e ↦ elim (failure_discrete outcome.identity expected) [
        | yes q ↦ ground arith
        | no n ↦ ground arith
      ]
      | inr e ↦ elim (failure_discrete outcome.identity expected) [
        | yes q ↦ ground arith
        | no n ↦ ground arith
      ]
    ]

matches-same : (expected : FailureIdentity) → matches expected (violation expected) ≡ true
matches-same expected = elim (failure_discrete expected expected) [
  | yes e ↦ ground arith
  | no n ↦ absurd (n refl)
]

verdict-found :
    (expected : FailureIdentity) (outcomes : List ConfiguredInvariantOutcome)
    (result : AttemptResult)
    → IsVerdict expected outcomes result
    → Member expected (violations outcomes)
    → matches expected result ≡ true
verdict-found expected outcomes AttemptResult.held h m =
    let m' : Member expected [] = subst (Member expected) h m in elim m' [ ]
verdict-found expected outcomes (violation found) h m =
    subst (λ f. matches expected (violation f) ≡ true) (sym (h.1 m)) (matches-same expected)
verdict-found expected outcomes AttemptResult.inconclusive h m = elim h [ ]

verdict-matched :
    (expected : FailureIdentity) (outcomes : List ConfiguredInvariantOutcome)
    (result : AttemptResult)
    → IsVerdict expected outcomes result
    → matches expected result ≡ true
    → Member expected (violations outcomes)
verdict-matched expected outcomes AttemptResult.held h e = cc
verdict-matched expected outcomes (violation found) h e = elim (failure_discrete found expected) [
  | yes same ↦ subst (λ f. Member f (violations outcomes)) same h.0
  | no n ↦ absurd (ground arith)
]
verdict-matched expected outcomes AttemptResult.inconclusive h e = elim h [ ]

-- The result of an attempt matches exactly where the expected failure was found.
pub matches-finds :
    (expected : FailureIdentity) (outcomes : List ConfiguredInvariantOutcome)
    → matches expected (attempt_result expected outcomes) ≡ finds expected outcomes
matches-finds expected outcomes =
    let verdict = attempt_result-IsVerdict expected outcomes in
    let found = contains-finds expected outcomes in
    elim (Bool-cases (finds expected outcomes)) [
      | inl e ↦
          verdict-found expected outcomes (attempt_result expected outcomes) verdict
            (Member-contains failure_discrete (violations outcomes) expected (found ∙ e))
          ∙ sym e
      | inr e ↦ elim (Bool-cases (matches expected (attempt_result expected outcomes))) [
        | inr f ↦ f ∙ sym e
        | inl f ↦
            let also =
              contains-Member failure_discrete (violations outcomes) expected
                (verdict-matched expected outcomes (attempt_result expected outcomes) verdict f) in
            absurd (cc)
      ]
    ]
