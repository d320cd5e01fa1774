-- ===== src/ConfiguredShrink/Effects.antt =====
-- crates/tiv-runtime/src/configured_shrink.rs: the errors of a search, and what it asks of the world: the
-- clock, the cancellation, fresh baselines, attempts and evidence. The state of the world is a parameter.
use tx_proof.Common.{ℕ, ◌-◌, Bool, Option, List, Result, ok, err, String, leb, ltb}
use tx_proof.Reproduction.{FailureIdentity}
use tx_proof.Shrink.Complexity.{ShrinkComplexity}
use tx_proof.Shrink.Lineage.{ShrinkError}
use tx_proof.Shrink.Candidate.{ShrinkCandidate}
use tx_proof.Trace.Materialize.{CompiledCaseTrace, CompiledShrinkTrace}
use tx_proof.ConfiguredShrink.Options.{
  ConfiguredShrinkCompletion, ShrinkDeadline, capped_attempt_timeout,
}

-- `outside` stands for the constructors that wrap the errors of other modules; `unreachable` is where
-- the code would panic.
pub data ConfiguredShrinkError (F : Type 0) : Type 0 where
  candidate : ShrinkError → ConfiguredShrinkError F
  original_trace_diverged : ℕ → ConfiguredShrinkError F
  candidate_trace_diverged : List ℕ → ℕ → ConfiguredShrinkError F
  attempt_accounting budget_expired interrupted : ConfiguredShrinkError F
  outside : F → ConfiguredShrinkError F
  unreachable : ConfiguredShrinkError F

-- `ConfiguredCampaignError`, by whether it is `CaseTimedOut`.
pub data AttemptFailure (F : Type 0) : Type 0 where
  case_timed_out other_failure : F → AttemptFailure F

pub record ConfiguredInvariantOutcome : Type 0 where
  pub identity : FailureIdentity
  pub witness_count : ℕ

abbrev pub violated : ConfiguredInvariantOutcome → Bool
violated outcome = ltb 0 outcome.witness_count

-- `ConfiguredAttemptExecution`
pub record AttemptExecution (T : Type 0) : Type 0 where
  pub trace : T
  pub before_database_oid : ℕ
  pub after_database_oid : ℕ
  pub before_marker_uuid : String
  pub after_marker_uuid : String
  pub journal_record_count : ℕ
  pub journal_last_record_hash : Option String
  pub provider_object_count : ℕ
  pub invariants : List ConfiguredInvariantOutcome

pub data AttemptVerdict : Type 0 where
  held expected_violation other_violation : AttemptVerdict

pub record AttemptArtifact : Type 0 where
  pub attempt : ℕ
  pub trace_matches_authority : Bool
  pub before_database_oid : ℕ
  pub after_database_oid : ℕ
  pub before_marker_uuid : String
  pub after_marker_uuid : String
  pub executed_action_count : ℕ
  pub journal_record_count : ℕ
  pub journal_last_record_hash : Option String
  pub provider_object_count : ℕ
  pub verdict : AttemptVerdict
  pub failure_identity : Option FailureIdentity
  pub invariants : List ConfiguredInvariantOutcome

pub record CandidateEvaluationArtifact : Type 0 where
  pub candidate_id : List ℕ
  pub action_count : ℕ
  pub complexity : ShrinkComplexity
  pub matching_failure_count : ℕ
  pub accepted : Bool
  pub attempts : List AttemptArtifact

-- `ShrinkSummary`, less what names the run and its source.
pub record ShrinkSummary : Type 0 where
  pub completion : ConfiguredShrinkCompletion
  pub candidate_limit : ℕ
  pub max_time_milliseconds : ℕ
  pub original_attempt_count : ℕ
  pub original_matching_failure_count : ℕ
  pub evaluated_candidates : ℕ
  pub cache_hits : ℕ
  pub accepted_candidates : ℕ
  pub original_action_count : ℕ
  pub best_action_count : ℕ
  pub minimized_trace_written : Bool
  pub original_attempts : List AttemptArtifact
  pub candidates : List CandidateEvaluationArtifact

-- `PartialShrinkSummary`, less the same; the failure class and code are those of the cause.
pub record PartialShrinkSummary (F : Type 0) : Type 0 where
  pub cause : ConfiguredShrinkError F
  pub completed_original_attempts : ℕ
  pub completed_candidate_evaluations : ℕ

-- The documents of an attempt, in the order in which they are written: the path of its journal, its
-- trace, the witnesses of its invariants and its result.
pub data AttemptDocument (T : Type 0) : Type 0 where
  observations : AttemptDocument T
  trace_document : T → AttemptDocument T
  witnesses : List ConfiguredInvariantOutcome → AttemptDocument T
  result_document : AttemptArtifact → AttemptDocument T

abbrev pub Effect : Type 0 → Type 0 → Type 0 → Type 0
Effect W F A = W → Result (ConfiguredShrinkError F) A × W

unfoldable pub then_effect :
    {W F A B : Type 0}
    → Result (ConfiguredShrinkError F) A × W
    → (A → Effect W F B)
    → Result (ConfiguredShrinkError F) B × W
then_effect (ok a, w) next = next a w
then_effect (err e, w) next = (err e, w)

infixl 5 ◌>>=◌
infixl 5 ◌>>◌
abbrev pub ◌>>=◌ : {W F A B : Type 0} → Effect W F A → (A → Effect W F B) → Effect W F B
(effect >>= next) w = then_effect (effect w) next

abbrev pub ◌>>◌ : {W F B : Type 0} → Effect W F Unit → Effect W F B → Effect W F B
(effect >> next) w = then_effect (effect w) (λ done. next)

abbrev pub give : {W F A : Type 0} → Result (ConfiguredShrinkError F) A → Effect W F A
give result w = (result, w)

abbrev pub or_outside : {W F A : Type 0} → Result F A × W → Result (ConfiguredShrinkError F) A × W
or_outside (ok a, w) = (ok a, w)
or_outside (err e, w) = (err (outside e), w)

-- What a search asks of the world, each with the world that it leaves. Artifacts are finalized with
-- the result and the authorities that the completion and the minimized trace, or the error, call for.
pub record Environment (W F : Type 0) : Type 0 where
  pub is_cancelled : W → Bool × W
  pub now : W → ℕ × W
  pub fresh_compatible_baseline : W → Result F Unit × W
  pub execute_original :
      ℕ → ℕ → W → Result (AttemptFailure F) (AttemptExecution CompiledCaseTrace) × W
  pub execute_candidate :
      ShrinkCandidate
      → ℕ
      → ℕ
      → W
      → Result (AttemptFailure F) (AttemptExecution CompiledShrinkTrace) × W
  pub write_original : ℕ → AttemptDocument CompiledCaseTrace → W → Result F Unit × W
  pub write_candidate : ShrinkCandidate → W → Result F Unit × W
  pub write_attempt : List ℕ → ℕ → AttemptDocument CompiledShrinkTrace → W → Result F Unit × W
  pub write_evaluation : CandidateEvaluationArtifact → W → Result F Unit × W
  pub write_minimized : CompiledShrinkTrace → W → Result F Unit × W
  pub write_summary : ShrinkSummary → W → Result F Unit × W
  pub write_report : ShrinkSummary → W → Result F Unit × W
  pub finalize_complete : ConfiguredShrinkCompletion → Bool → W → Result F String × W
  pub write_partial_summary : PartialShrinkSummary F → W → Result F Unit × W
  pub write_partial_report : PartialShrinkSummary F → W → Result F Unit × W
  pub finalize_partial : ConfiguredShrinkError F → W → Result F String × W

module _ {W F : Type 0} (environment : Environment W F) (deadline : ShrinkDeadline) where
  -- `ShrinkDeadline::is_exhausted`; `elapsed` stops at zero.
  abbrev pub is_exhausted : W → Bool × W
  is_exhausted w =
      let (instant, w') = environment.now w in
      (leb deadline.max_time (instant - deadline.started), w')

  -- `ShrinkDeadline::attempt_timeout`
  abbrev pub attempt_timeout : ℕ → W → Option ℕ × W
  attempt_timeout configured_case_timeout w =
      let (instant, w') = environment.now w in
      (
        capped_attempt_timeout deadline.max_time (instant - deadline.started)
            configured_case_timeout,
        w',
      )
