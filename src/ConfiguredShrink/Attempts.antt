-- ===== src/ConfiguredShrink/Attempts.antt =====
-- crates/tiv-runtime/src/configured_shrink.rs and configured_replay.rs: the three attempts at the original
-- case and at a candidate, and what they say of the expected failure.
use Prim.Native.Char.{code}
use tx_proof.Common.{
  ℕ, Bool, true, false, not, ◌&&◌, ◌||◌, Option, none, some, List, [], ◌∷◌, length, filter, map,
  Result, ok, err, String, holds, contains, ltb, ◌==◌, if◌then◌else◌,
}
use tx_proof.Reproduction.{FailureIdentity, failure_discrete, AttemptResult, violation, matches}
use tx_proof.ConfiguredShrink.Options.{ShrinkDeadline}
use tx_proof.ConfiguredShrink.Effects.{
  ConfiguredShrinkError, budget_expired, interrupted, outside, AttemptFailure, case_timed_out,
  other_failure, ConfiguredInvariantOutcome, violated, AttemptExecution, AttemptVerdict,
  expected_violation, other_violation, AttemptArtifact, Effect, ◌>>=◌, ◌>>◌, or_outside,
  Environment, is_exhausted, attempt_timeout,
}

abbrev pub attempt_count : ℕ
attempt_count = 3

-- `str::cmp` decides by the first character that differs.
abbrev pub text_before : String → String → Bool
text_before left String.[] = false
text_before String.[] (String.◌∷◌ d right) = true
text_before (String.◌∷◌ c left) (String.◌∷◌ d right) =
    let rest = text_before left right in ltb (code c) (code d) || ((code c == code d) && rest)

-- The order of the pairs of an invariant and a checkpoint.
abbrev pub identity_before : FailureIdentity → FailureIdentity → Bool
identity_before left right =
    text_before left.invariant.value right.invariant.value
    || (not (text_before right.invariant.value left.invariant.value)
        && text_before left.checkpoint.value right.checkpoint.value)

abbrev pub insert_identity : FailureIdentity → List FailureIdentity → List FailureIdentity
insert_identity found [] = found ∷ []
insert_identity found (first ∷ rest) =
    let others = insert_identity found rest in
    if identity_before first found then first ∷ others else found ∷ first ∷ rest

-- `sort_by` keeps the order of equal elements.
abbrev pub sort_identities : List FailureIdentity → List FailureIdentity
sort_identities [] = []
sort_identities (found ∷ rest) = insert_identity found (sort_identities rest)

abbrev pub violations : List ConfiguredInvariantOutcome → List FailureIdentity
violations outcomes = map (λ o. o.identity) (filter violated outcomes)

abbrev pub first_violation : List FailureIdentity → AttemptResult
first_violation [] = AttemptResult.held
first_violation (found ∷ rest) = violation found

-- `attempt_result`, and `configured_attempt_result` which calls it.
unfoldable pub attempt_result : FailureIdentity → List ConfiguredInvariantOutcome → AttemptResult
attempt_result expected outcomes =
    if contains failure_discrete (violations outcomes) expected
    then violation expected
    else first_violation (sort_identities (violations outcomes))

unfoldable pub matching_count : List AttemptResult → FailureIdentity → ℕ
matching_count attempts expected = length (filter (matches expected) attempts)

abbrev pub verdict_of :
    FailureIdentity → AttemptResult → Option (AttemptVerdict × Option FailureIdentity)
verdict_of expected AttemptResult.held = some (AttemptVerdict.held, none)
verdict_of expected (violation found) = some (
    if holds (failure_discrete found expected)
    then (expected_violation, some found)
    else (other_violation, some found))
verdict_of expected AttemptResult.inconclusive = none

-- `attempt_artifact`; the trace is counted by the caller.
unfoldable pub attempt_artifact :
    {T : Type 0}
    → ℕ
    → AttemptExecution T
    → ℕ
    → AttemptResult
    → FailureIdentity
    → Bool
    → Option AttemptArtifact
attempt_artifact attempt execution action_count result expected trace_matches =
    elim (verdict_of expected result) [
      | none ↦ none
      | some verdict ↦ some (record {
        attempt = attempt;
        trace_matches_authority = trace_matches;
        before_database_oid = execution.before_database_oid;
        after_database_oid = execution.after_database_oid;
        before_marker_uuid = execution.before_marker_uuid;
        after_marker_uuid = execution.after_marker_uuid;
        executed_action_count = action_count;
        journal_record_count = execution.journal_record_count;
        journal_last_record_hash = execution.journal_last_record_hash;
        provider_object_count = execution.provider_object_count;
        verdict = verdict.0;
        failure_identity = verdict.1;
        invariants = execution.invariants;
      })
    ]

-- The vectors that the attempts fill, and the trace that the later attempts at a candidate repeat.
pub record Attempts : Type 0 where
  pub artifacts : List AttemptArtifact
  pub results : List AttemptResult

abbrev pub no_attempts : Attempts
no_attempts = record { artifacts = []; results = [] }

abbrev pub present :
    {F A : Type 0} → ConfiguredShrinkError F → Option A → Result (ConfiguredShrinkError F) A
present e none = err e
present e (some a) = ok a

abbrev pub fail_if :
    {F : Type 0} → Bool → ConfiguredShrinkError F → Result (ConfiguredShrinkError F) Unit
fail_if true e = err e
fail_if false e = ok tt

module _ {W F : Type 0} (environment : Environment W F) (deadline : ShrinkDeadline)
    (configured_case_timeout : ℕ) where
  abbrev pub after_time_out :
      {T : Type 0} → F → Bool × W → Result (ConfiguredShrinkError F) (AttemptExecution T) × W
  after_time_out failure (true, w) = (err budget_expired, w)
  after_time_out failure (false, w) = (err (outside failure), w)

  -- An attempt that times out is no failure when the budget of the search has run out.
  abbrev pub executed :
      {T : Type 0}
      → Result (AttemptFailure F) (AttemptExecution T) × W
      → Result (ConfiguredShrinkError F) (AttemptExecution T) × W
  executed (ok execution, w) = (ok execution, w)
  executed (err (case_timed_out failure), w) =
      after_time_out failure (is_exhausted environment deadline w)
  executed (err (other_failure failure), w) = (err (outside failure), w)

  abbrev pub next_timeout : Effect W F ℕ
  next_timeout w =
      let (cancelled, w') = environment.is_cancelled w in
      let (timeout, w'') = attempt_timeout environment deadline configured_case_timeout w' in
      if cancelled then (err interrupted, w') else (present budget_expired timeout, w'')

  -- The first attempt at the original case uses the baseline that is there.
  abbrev pub baseline : Bool → Effect W F Unit
  baseline true w = (ok tt, w)
  baseline false w = or_outside (environment.fresh_compatible_baseline w)

  -- What the attempts at the original case and at a candidate start with.
  abbrev pub start_attempt :
      {T : Type 0}
      → Bool
      → (W → Result F Unit × W)
      → (ℕ → W → Result (AttemptFailure F) (AttemptExecution T) × W)
      → Effect W F (AttemptExecution T)
  start_attempt has_baseline prepare execute = do
    timeout ← next_timeout
    baseline has_baseline
    (λ w. or_outside (prepare w))
    (λ w. executed (execute timeout w))
