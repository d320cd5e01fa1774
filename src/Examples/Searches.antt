-- ===== src/Examples/Searches.antt =====
-- The search of crates/tiv-runtime/src/configured_shrink.rs at concrete inputs.
use tx_proof.Common.{ℕ, ◌+◌, ◌≡◌, refl, arith, true, false, none, some, List, [], ◌∷◌, ok, String}
use tx_proof.Reproduction.{FailureIdentity, failure_discrete}
use tx_proof.Shrink.Candidate.{ShrinkCandidate, candidate_discrete}
use tx_proof.Shrink.Generator.{canonical_identity, candidate_complexity}
use tx_proof.Trace.Materialize.{
  case_trace_schema_version, shrink_trace_schema_version, CompiledCaseTrace, CompiledShrinkTrace,
  matches_shrink_authority,
}
use tx_proof.Trace.Types.{compiled_actions_discrete, captured_discrete}
use tx_proof.ConfiguredShrink.Options.{ShrinkDeadline, capped_attempt_timeout}
use tx_proof.ConfiguredShrink.Effects.{
  ConfiguredInvariantOutcome, AttemptExecution, AttemptArtifact, expected_violation, Environment,
  then_effect,
}
use tx_proof.ConfiguredShrink.Attempts.{attempt_result, attempt_artifact, matching_count}
use tx_proof.ConfiguredShrink.Evaluate.{
  CandidateEvaluation, evaluate_candidate, candidate_from, observe_candidate,
}
use tx_proof.ConfiguredShrink.Search.{new_search, search}
use tx_proof.ConfiguredShrink.Evaluated.{IsEvaluation, evaluate_candidate-IsEvaluation}
use tx_proof.ConfiguredShrink.Searched.{Searched, search-IsSearched}
use tx_proof.ConfiguredShrink.Verdicts.{IsVerdict, attempt_result-IsVerdict}
use tx_proof.Examples.{counting}
use tx_proof.Examples.Shrinks.{
  faulty_case, faulty-generator, generator, shorter, to_vec, blake3_hash,
}

abbrev lost_payment : FailureIdentity
lost_payment = record {
  invariant = record { value = "paid_once" };
  checkpoint = record { value = "final" };
}

abbrev lost_outcomes : List ConfiguredInvariantOutcome
lost_outcomes = record { identity = lost_payment; witness_count = 1 } ∷ []

abbrev attempt : {T : Type 0} → T → AttemptExecution T
attempt trace = record {
  trace = trace;
  before_database_oid = 1;
  after_database_oid = 2;
  before_marker_uuid = "";
  after_marker_uuid = "";
  journal_record_count = 0;
  journal_last_record_hash = none;
  provider_object_count = 1;
  invariants = lost_outcomes;
}

abbrev original : CompiledCaseTrace
original = record {
  schema_version = case_trace_schema_version;
  planned_case = faulty_case;
  actions = [];
  captured = [];
}

abbrev trace_of : ShrinkCandidate → CompiledShrinkTrace
trace_of c = record {
  schema_version = shrink_trace_schema_version;
  candidate = c;
  actions = [];
  captured = [];
}

-- Every attempt takes a second and finds the failure; the world is its clock.
abbrev reliable : Environment ℕ String
reliable = record {
  is_cancelled = λ w. (false, w);
  now = λ w. (w, w);
  fresh_compatible_baseline = λ w. (ok tt, w);
  execute_original = λ n timeout w. (ok (attempt original), w + 1000000000);
  execute_candidate = λ c n timeout w. (ok (attempt (trace_of c)), w + 1000000000);
  write_original = λ n document w. (ok tt, w);
  write_candidate = λ c w. (ok tt, w);
  write_attempt = λ identity n document w. (ok tt, w);
  write_evaluation = λ e w. (ok tt, w);
  write_minimized = λ trace w. (ok tt, w);
  write_summary = λ summary w. (ok tt, w);
  write_report = λ summary w. (ok tt, w);
  finalize_complete = λ completion is_minimized w. (ok "shrink", w);
  write_partial_summary = λ summary w. (ok tt, w);
  write_partial_report = λ summary w. (ok tt, w);
  finalize_partial = λ cause w. (ok "partial", w);
}

abbrev deadline : ShrinkDeadline
deadline = record { started = 0; max_time = 600000000000 }

abbrev recorded : ℕ → AttemptArtifact
recorded n = record {
  attempt = n;
  trace_matches_authority = true;
  before_database_oid = 1;
  after_database_oid = 2;
  before_marker_uuid = "";
  after_marker_uuid = "";
  executed_action_count = 0;
  journal_record_count = 0;
  journal_last_record_hash = none;
  provider_object_count = 1;
  verdict = expected_violation;
  failure_identity = some lost_payment;
  invariants = lost_outcomes;
}

abbrev reproduced : CandidateEvaluation
reproduced = record {
  artifact = record {
    candidate_id = canonical_identity to_vec blake3_hash shorter;
    action_count = 9;
    complexity = candidate_complexity shorter;
    matching_failure_count = 3;
    accepted = true;
    attempts = recorded 1 ∷ recorded 2 ∷ recorded 3 ∷ [];
  };
  authority = trace_of shorter;
}

shorter_reproduces :
    evaluate_candidate reliable deadline 30000000000 lost_payment to_vec blake3_hash shorter 0
    ≡ (ok reproduced, 3000000000)
unfolding evaluate_candidate then_effect candidate_from observe_candidate capped_attempt_timeout
    attempt_artifact attempt_result failure_discrete matches_shrink_authority candidate_discrete
    compiled_actions_discrete captured_discrete matching_count
shorter_reproduces = refl

evaluate_candidate-IsEvaluation_example :
    IsEvaluation reliable lost_payment (canonical_identity to_vec blake3_hash) shorter reproduced
evaluate_candidate-IsEvaluation_example =
    evaluate_candidate-IsEvaluation reliable deadline 30000000000 lost_payment to_vec blake3_hash
      shorter 0 reproduced 3000000000 shorter_reproduces

attempt_result-IsVerdict_example :
    IsVerdict lost_payment lost_outcomes (attempt_result lost_payment lost_outcomes)
attempt_result-IsVerdict_example = attempt_result-IsVerdict lost_payment lost_outcomes

search-IsSearched_example :
    (end : _) × (search counting to_vec blake3_hash reliable deadline 30000000000 lost_payment 60
        generator 61 new_search 0
      ≡ some end)
    × Searched counting to_vec blake3_hash reliable deadline 30000000000 lost_payment 60 generator
        end
search-IsSearched_example =
    search-IsSearched counting to_vec blake3_hash reliable deadline 30000000000 lost_payment 60
      generator faulty_case faulty-generator 61 0 (omega arith)
