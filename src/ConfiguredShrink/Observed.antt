-- ===== src/ConfiguredShrink/Observed.antt =====
-- crates/tiv-runtime/src/configured_shrink.rs: what one attempt at a candidate observes and records.
use tx_proof.Common.{
  ℕ, ◌≡◌, inl, inr, refl, ◌∙◌, arith, Bool, true, false, Option, none, some, List, length, ok, err,
  Result, String, Option-cases,
}
use tx_proof.Plan.Compiler.{PlannedCase}
use tx_proof.Reproduction.{FailureIdentity, matches}
use tx_proof.Shrink.Lineage.{ShrinkAction}
use tx_proof.Shrink.Candidate.{ShrinkCandidate, candidate_discrete}
use tx_proof.Shrink.Generator.{canonical_identity}
use tx_proof.Trace.Types.{compiled_actions_discrete, captured_discrete}
use tx_proof.Trace.Materialize.{CompiledShrinkTrace, durable_captures, matches_shrink_authority}
use tx_proof.ConfiguredShrink.Options.{ShrinkDeadline}
use tx_proof.ConfiguredShrink.Effects.{
  ConfiguredShrinkError, unreachable, candidate_trace_diverged, AttemptFailure, case_timed_out,
  other_failure, AttemptExecution, AttemptArtifact, Environment,
}
use tx_proof.ConfiguredShrink.Attempts.{
  attempt_result, verdict_of, attempt_artifact, present, executed, after_time_out, start_attempt,
}
use tx_proof.ConfiguredShrink.Evaluate.{Observed, agrees, observe_candidate}
use tx_proof.ConfiguredShrink.Verdicts.{is_expected, verdict_of-matches}
use tx_proof.ConfiguredShrink.Yields.{Yields, Yields-bind, Yields-ok, Yields-imp, given, fail_if-ok}
use tx_proof.ConfiguredShrink.Found.{finds, matches-finds}

-- Two traces of the same candidate, with the same actions, that captured the same but for the gates.
pub record SameButGates (a b : CompiledShrinkTrace) : Type 0 where
  pub version : a.schema_version ≡ b.schema_version
  pub candidate : a.candidate ≡ b.candidate
  pub actions : a.actions ≡ b.actions
  pub captured : durable_captures a.captured ≡ durable_captures b.captured

-- The evidence of an attempt is of what the environment executed.
pub record IsRecord (expected : FailureIdentity) (attempt : ℕ)
    (x : AttemptExecution CompiledShrinkTrace) (a : AttemptArtifact) : Type 0 where
  pub numbered : a.attempt ≡ attempt
  pub invariants : a.invariants ≡ x.invariants
  pub actions : a.executed_action_count ≡ length x.trace.actions
  pub verdict : is_expected a.verdict ≡ finds expected x.invariants

artifact-IsRecord :
    {F : Type 0} (attempt : ℕ) (x : AttemptExecution CompiledShrinkTrace)
    (expected : FailureIdentity) (trace_matches : Bool) (artifact : AttemptArtifact)
    (e : ConfiguredShrinkError F)
    → present e (
        attempt_artifact attempt x
          (length x.trace.actions)
          (attempt_result expected x.invariants)
          expected
          trace_matches)
      ≡ ok artifact
    → IsRecord expected attempt x artifact × (artifact.trace_matches_authority ≡ trace_matches)
unfolding attempt_artifact
artifact-IsRecord attempt x expected trace_matches artifact e h =
    elim (Option-cases (verdict_of expected (attempt_result expected x.invariants))) [
      | inl none_found ↦ absurd (ground arith)
      | inr (verdict, found) ↦
          let matched =
            verdict_of-matches expected (attempt_result expected x.invariants) verdict found in
          let observed = matches-finds expected x.invariants in
          let same : is_expected artifact.verdict ≡ is_expected verdict.0 = ground arith in
          (
            record {
              numbered = ground arith;
              invariants = ground arith;
              actions = ground arith;
              verdict = same ∙ matched ∙ observed;
            },
            ground arith,
          )
    ]

shrink_authority-SameButGates :
    (a b : CompiledShrinkTrace) → matches_shrink_authority a b ≡ true → SameButGates a b
unfolding matches_shrink_authority
shrink_authority-SameButGates a b h = record {
  version = ground arith;
  candidate = elim (candidate_discrete a.candidate b.candidate) [
    | yes e ↦ e
    | no n ↦ absurd (ground arith)
  ];
  actions = elim (compiled_actions_discrete a.actions b.actions) [
    | yes e ↦ e
    | no n ↦ absurd (ground arith)
  ];
  captured = elim (captured_discrete (durable_captures a.captured) (durable_captures b.captured)) [
    | yes e ↦ e
    | no n ↦ absurd (ground arith)
  ];
}

abbrev pub Agrees : Option CompiledShrinkTrace → CompiledShrinkTrace → Type 0
Agrees none trace = Unit
Agrees (some authority) trace = SameButGates authority trace

agrees-Agrees :
    (authority : Option CompiledShrinkTrace) (trace : CompiledShrinkTrace)
    → agrees authority trace ≡ true
    → Agrees authority trace
agrees-Agrees none trace h = tt
agrees-Agrees (some authority) trace h = shrink_authority-SameButGates authority trace h

-- The environment executed the attempt at the candidate, and observed this.
abbrev pub Ran :
    {W F : Type 0}
    → Environment W F
    → ShrinkCandidate
    → ℕ
    → AttemptExecution CompiledShrinkTrace
    → Type 0
Ran {W} environment c attempt x =
    (timeout : ℕ) × (w : W) × (w' : W) × (environment.execute_candidate c attempt timeout w
      ≡ (ok x, w'))

pub record IsObserved {W F : Type 0} (environment : Environment W F) (expected : FailureIdentity)
    (c : ShrinkCandidate) (authority : Option CompiledShrinkTrace) (attempt : ℕ)
    (observed : Observed CompiledShrinkTrace) : Type 0 where
  pub execution : AttemptExecution CompiledShrinkTrace
  pub ran : Ran environment c attempt execution
  pub trace : observed.trace ≡ execution.trace
  pub recorded : IsRecord expected attempt execution observed.artifact
  pub agreed : observed.artifact.trace_matches_authority ≡ true
  pub matched : matches expected observed.result ≡ finds expected execution.invariants
  pub same : Agrees authority execution.trace

module _ {W F : Type 0} (environment : Environment W F) (deadline : ShrinkDeadline)
    (configured_case_timeout : ℕ) where
  timed_out-Yields :
      {T : Type 0} (P : AttemptExecution T → Type 0) (failure : F) (exhausted : Bool × W)
      → Yields P (after_time_out environment deadline configured_case_timeout failure exhausted)
  timed_out-Yields P failure (true, w) = tt
  timed_out-Yields P failure (false, w) = tt

  executed-Yields :
      {T : Type 0} (r : Result (AttemptFailure F) (AttemptExecution T) × W)
      → Yields
          (λ x. (w : W) × (r ≡ (ok x, w)))
          (executed environment deadline configured_case_timeout r)
  executed-Yields (ok x, w) = (w, refl)
  executed-Yields (err (case_timed_out failure), w) = timed_out-Yields _ failure _
  executed-Yields (err (other_failure failure), w) = tt

  start_attempt-Yields :
      {T : Type 0} (has_baseline : Bool) (prepare : W → Result F Unit × W)
      (execute : ℕ → W → Result (AttemptFailure F) (AttemptExecution T) × W) (w : W)
      → Yields
          (λ x. (timeout : ℕ) × (w : W) × (w' : W) × (execute timeout w ≡ (ok x, w')))
          (start_attempt environment deadline configured_case_timeout has_baseline prepare execute
            w)
  start_attempt-Yields has_baseline prepare execute w =
      let P : AttemptExecution _ → Type 0 =
        λ x. (timeout : ℕ) × (w : W) × (w' : W) × (execute timeout w ≡ (ok x, w')) in
      Yields-bind P _ _ (λ timeout w1 _. Yields-bind P _ _ (λ _ w2 _. Yields-bind P _ _ (λ _ w3 _.
        Yields-imp _ P (λ x (w4, e). (timeout, w3, w4, e)) _
          (executed-Yields (execute timeout w3)))))

module _ {W F : Type 0} (environment : Environment W F) (deadline : ShrinkDeadline)
    (configured_case_timeout : ℕ) (expected : FailureIdentity)
    (to_vec : String × PlannedCase × List ShrinkAction → List ℕ)
    (blake3_hash : List ℕ → List ℕ) where
  pub observe-IsObserved :
      (candidate : ShrinkCandidate) (authority : Option CompiledShrinkTrace) (attempt : ℕ) (w : W)
      → Yields (IsObserved environment expected candidate authority attempt) (
          observe_candidate environment deadline configured_case_timeout expected to_vec blake3_hash
            candidate authority attempt w)
  unfolding observe_candidate
  observe-IsObserved candidate authority attempt w =
      let P = IsObserved environment expected candidate authority attempt in
      Yields-bind P _ _ (λ execution w1 started. Yields-bind P _ _ (λ artifact w2 made.
        Yields-bind P _ _ (λ _ w3 _. Yields-bind P _ _ (λ _ w4 _. Yields-bind P _ _ (λ _ w5 _.
          Yields-bind P _ _ (λ done w6 agreed.
            let ran =
              Yields-ok (Ran environment candidate attempt) _ execution w1
                (start_attempt-Yields environment deadline configured_case_timeout false _
                  (environment.execute_candidate candidate attempt) w)
                started in
            let (recorded, matched) =
              artifact-IsRecord attempt execution expected (agrees authority execution.trace)
                artifact unreachable (given _ (ok artifact) w1 w2 made) in
            let same =
              fail_if-ok (agrees authority execution.trace)
                (candidate_trace_diverged (canonical_identity to_vec blake3_hash candidate) attempt)
                done (given _ (ok done) w5 w6 agreed) in
            record {
              execution = execution;
              ran = ran;
              trace = refl;
              recorded = recorded;
              agreed = matched ∙ same;
              matched = matches-finds expected execution.invariants;
              same = agrees-Agrees authority execution.trace same;
            }))))))
