-- ===== src/ConfiguredShrink/Evaluate.antt =====
-- crates/tiv-runtime/src/configured_shrink.rs: `evaluate_original` and `evaluate_candidate`.
use tx_proof.Common.{
  ℕ, zero, suc, ◌+◌, Bool, true, false, not, Option, none, some, List, [], ◌∷◌, ◌++◌, length,
  Result, ok, err, String, leb,
}
use tx_proof.Plan.Compiler.{PlannedCase}
use tx_proof.Reproduction.{FailureIdentity, AttemptResult}
use tx_proof.Shrink.Lineage.{ShrinkAction}
use tx_proof.Shrink.Candidate.{ShrinkCandidate}
use tx_proof.Shrink.Generator.{candidate_complexity, canonical_identity}
use tx_proof.Trace.Materialize.{
  CompiledCaseTrace, CompiledShrinkTrace, matches_replay_authority, matches_shrink_authority,
}
use tx_proof.ConfiguredShrink.Options.{ShrinkDeadline}
use tx_proof.ConfiguredShrink.Effects.{
  ConfiguredShrinkError, original_trace_diverged, candidate_trace_diverged, attempt_accounting,
  unreachable, AttemptArtifact, CandidateEvaluationArtifact, observations, trace_document,
  witnesses, result_document, Effect, ◌>>=◌, ◌>>◌, give, or_outside, Environment,
}
use tx_proof.ConfiguredShrink.Attempts.{
  attempt_count, attempt_result, matching_count, attempt_artifact, Attempts, no_attempts, present,
  fail_if, start_attempt,
}

pub record CandidateEvaluation : Type 0 where
  pub artifact : CandidateEvaluationArtifact
  pub authority : CompiledShrinkTrace

-- What one attempt leaves.
pub record Observed (T : Type 0) : Type 0 where
  pub trace : T
  pub artifact : AttemptArtifact
  pub result : AttemptResult
  pub trace_matches : Bool

abbrev pub agrees : Option CompiledShrinkTrace → CompiledShrinkTrace → Bool
agrees none executed = true
agrees (some authority) executed = matches_shrink_authority authority executed

abbrev pub keep_first : Option CompiledShrinkTrace → CompiledShrinkTrace → CompiledShrinkTrace
keep_first none executed = executed
keep_first (some authority) executed = authority

abbrev pub push_attempt : Attempts → AttemptArtifact → AttemptResult → Attempts
push_attempt attempts artifact result = record {
  artifacts = attempts.artifacts ++ artifact ∷ [];
  results = attempts.results ++ result ∷ [];
}

module _ {W F : Type 0} (environment : Environment W F) (deadline : ShrinkDeadline)
    (configured_case_timeout : ℕ) (expected : FailureIdentity) where
  -- The body of the loop of `evaluate_original`, up to its last document.
  unfoldable pub observe_original : CompiledCaseTrace → ℕ → Effect W F (Observed CompiledCaseTrace)
  observe_original original attempt = do
    execution ←
        start_attempt environment deadline configured_case_timeout (leb attempt 1)
          (environment.write_original attempt observations) (environment.execute_original attempt)
    let trace_matches = matches_replay_authority original execution.trace
    let result = attempt_result expected execution.invariants
    evidence ← give (
        present unreachable (
          attempt_artifact attempt execution (length execution.trace.actions) result expected
            trace_matches))
    (λ w. or_outside (environment.write_original attempt (trace_document execution.trace) w))
    (λ w. or_outside (environment.write_original attempt (witnesses execution.invariants) w))
    (λ w. or_outside (environment.write_original attempt (result_document evidence) w))
    give (
        ok (record {
          trace = execution.trace;
          artifact = evidence;
          result = result;
          trace_matches = trace_matches;
        }))

  -- The attempts recorded so far outlive an error.
  abbrev pub record_original :
      ℕ
      → Attempts
      → Result (ConfiguredShrinkError F) (Observed CompiledCaseTrace) × W
      → Result (ConfiguredShrinkError F) Unit × Attempts × W
  record_original attempt attempts (err e, w) = (err e, attempts, w)
  record_original attempt attempts (ok observed, w) = elim observed.trace_matches [
    | true ↦ (ok tt, push_attempt attempts observed.artifact observed.result, w)
    | false ↦ (
      err (original_trace_diverged attempt),
      record attempts { artifacts = attempts.artifacts ++ observed.artifact ∷ [] },
      w,
    )
  ]

  abbrev pub after_original :
      (Attempts → W → Result (ConfiguredShrinkError F) Unit × Attempts × W)
      → Result (ConfiguredShrinkError F) Unit × Attempts × W
      → Result (ConfiguredShrinkError F) Unit × Attempts × W
  after_original next (ok done, attempts, w) = next attempts w
  after_original next (err e, attempts, w) = (err e, attempts, w)

  unfoldable pub original_from :
      CompiledCaseTrace
      → ℕ
      → ℕ
      → Attempts
      → W
      → Result (ConfiguredShrinkError F) Unit × Attempts × W
  original_from original zero attempt attempts w = (ok tt, attempts, w)
  original_from original (suc left) attempt attempts w =
      after_original (original_from original left (attempt + 1))
        (record_original attempt attempts (observe_original original attempt w))

  unfoldable pub evaluate_original :
      CompiledCaseTrace → W → Result (ConfiguredShrinkError F) Unit × Attempts × W
  evaluate_original original w = original_from original attempt_count 1 no_attempts w

module _ {W F : Type 0} (environment : Environment W F) (deadline : ShrinkDeadline)
    (configured_case_timeout : ℕ) (expected : FailureIdentity)
    (to_vec : String × PlannedCase × List ShrinkAction → List ℕ)
    (blake3_hash : List ℕ → List ℕ) where
  -- The body of the loop of `evaluate_candidate`.
  unfoldable pub observe_candidate :
      ShrinkCandidate → Option CompiledShrinkTrace → ℕ → Effect W F (Observed CompiledShrinkTrace)
  observe_candidate candidate authority attempt = do
    let identity = canonical_identity to_vec blake3_hash candidate
    execution ←
        start_attempt environment deadline configured_case_timeout false
          (environment.write_attempt identity attempt observations)
          (environment.execute_candidate candidate attempt)
    let trace_matches = agrees authority execution.trace
    let result = attempt_result expected execution.invariants
    evidence ← give (
        present unreachable (
          attempt_artifact attempt execution (length execution.trace.actions) result expected
            trace_matches))
    (λ w.
        or_outside (environment.write_attempt identity attempt (trace_document execution.trace) w))
    (λ w.
        or_outside (environment.write_attempt identity attempt (witnesses execution.invariants) w))
    (λ w. or_outside (environment.write_attempt identity attempt (result_document evidence) w))
    give (fail_if (not trace_matches) (candidate_trace_diverged identity attempt))
    give (
        ok (record {
          trace = execution.trace;
          artifact = evidence;
          result = result;
          trace_matches = trace_matches;
        }))

  unfoldable pub candidate_from :
      ShrinkCandidate
      → ℕ
      → ℕ
      → Attempts
      → Option CompiledShrinkTrace
      → Effect W F (Attempts × Option CompiledShrinkTrace)
  candidate_from candidate zero attempt attempts authority = give (ok (attempts, authority))
  candidate_from candidate (suc left) attempt attempts authority = do
    observed ← observe_candidate candidate authority attempt
    candidate_from candidate left (attempt + 1)
        (push_attempt attempts observed.artifact observed.result)
        (some (keep_first authority observed.trace))

  -- The evaluation of the recorded attempts.
  abbrev pub evaluation_of : ShrinkCandidate → Attempts → CandidateEvaluationArtifact
  evaluation_of candidate attempts = record {
    candidate_id = canonical_identity to_vec blake3_hash candidate;
    action_count = length candidate.actions;
    complexity = candidate_complexity candidate;
    matching_failure_count = matching_count attempts.results expected;
    accepted = leb 2 (matching_count attempts.results expected);
    attempts = attempts.artifacts;
  }

  unfoldable pub evaluate_candidate : ShrinkCandidate → Effect W F CandidateEvaluation
  evaluate_candidate candidate = do
    (λ w. or_outside (environment.write_candidate candidate w))
    (attempts, authority) ← candidate_from candidate attempt_count 1 no_attempts none
    (λ w. or_outside (environment.write_evaluation (evaluation_of candidate attempts) w))
    trace ← give (present attempt_accounting authority)
    give (ok (record { artifact = evaluation_of candidate attempts; authority = trace }))
