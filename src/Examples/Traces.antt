-- ===== src/Examples/Traces.antt =====
-- The trace of a case at concrete captures.
use tx_proof.Common.{ℕ, ◌≡◌, refl, List, [], ◌∷◌, Result, ok, err, String}
use tx_proof.Ids.{invalid_provider_id, validate_provider_id, new_payment_intent_id}
use tx_proof.Decision.{sort, dedup}
use tx_proof.Plan.Limits.{scheduler_algorithm}
use tx_proof.Plan.Model.{for_scheduler}
use tx_proof.Plan.History.{Completes}
use tx_proof.Shrink.Candidate.{action_kinds}
use tx_proof.Shrink.Materialized.{validate_candidate-IsCandidate}
use tx_proof.Trace.Types.{
  ref_discrete, payment_intent_output, event_output, payment_intent_value, event_value,
  CaseCapturedOutput, CompiledCaseAction, CaseTraceMaterializationError,
}
use tx_proof.Trace.Actions.{
  output_of, materialize_case_actions, materialize_from_state, reserve_business_provider_outputs,
}
use tx_proof.Trace.Captures.{
  bind_case_captures, collect_captures, insert_capture, declared_set, check_outputs,
}
use tx_proof.Trace.Materialize.{CompiledCaseTrace, case_actions, materialize_case, read_case_trace}
use tx_proof.Trace.Bound.{IsBinding, materialize_case-reads}
use tx_proof.Trace.Declared.{HaveSources}
use tx_proof.Trace.Sources.{materialize_case_actions-total}
use tx_proof.Examples.{counting}
use tx_proof.Examples.Shrinks.{
  faulty_actions, faulty_case, faulty, faulty_validates, shorter, faulty-Accepts,
}

intent_made : new_payment_intent_id "pi_A1" ≡ ok (record { text = "pi_A1" })
unfolding validate_provider_id
intent_made = refl

empty_suffix_refused : new_payment_intent_id "pi_" ≡ err invalid_provider_id
unfolding validate_provider_id
empty_suffix_refused = refl

abbrev intent : ℕ → String → CaseCapturedOutput
intent id text = record {
  output_ref = output_of id payment_intent_output;
  value = payment_intent_value (record { text = text });
}

abbrev event : ℕ → String → CaseCapturedOutput
event id text = record {
  output_ref = output_of id event_output;
  value = event_value (record { text = text });
}

abbrev actions_of :
    Result CaseTraceMaterializationError (List CompiledCaseAction) → List CompiledCaseAction
actions_of (ok actions) = actions
actions_of (err _) = []

abbrev trace : CompiledCaseTrace
trace = record {
  schema_version = 3;
  planned_case = faulty_case;
  actions = actions_of (materialize_case_actions faulty_actions);
  captured =
      intent 1 "pi_1"
      ∷ intent 2 "pi_2"
      ∷ intent 3 "pi_3"
      ∷ event 5 "evt_5"
      ∷ event 6 "evt_6"
      ∷ event 7 "evt_7"
      ∷ [];
}

-- Captured in another order
abbrev entries : List CaseCapturedOutput
entries =
    event 7 "evt_7"
    ∷ intent 2 "pi_2"
    ∷ intent 1 "pi_1"
    ∷ event 6 "evt_6"
    ∷ event 5 "evt_5"
    ∷ intent 3 "pi_3"
    ∷ []

trace_made : materialize_case counting faulty_case entries ≡ ok trace
unfolding materialize_case case_actions bind_case_captures materialize_from_state collect_captures
    insert_capture declared_set check_outputs reserve_business_provider_outputs dedup sort
    ref_discrete
trace_made = rw faulty_validates refl

materialize_case-reads_example :
    IsBinding (declared_set trace.actions) trace.captured
    × (read_case_trace counting trace ≡ ok trace)
materialize_case-reads_example =
    materialize_case-reads counting faulty_case entries trace trace_made

shorter_completes :
    Completes faulty (for_scheduler scheduler_algorithm) (action_kinds shorter.actions)
shorter_completes = (validate_candidate-IsCandidate counting shorter faulty-Accepts.0).completes

materialize_case_actions-total_example :
    (compiled : List CompiledCaseAction) × (materialize_case_actions shorter.actions ≡ ok compiled)
    × HaveSources [] shorter.actions compiled
materialize_case_actions-total_example =
    materialize_case_actions-total faulty scheduler_algorithm shorter.actions shorter_completes
