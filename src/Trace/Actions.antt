-- ===== src/Trace/Actions.antt =====
-- crates/tiv-core/src/trace.rs: `materialize_case_actions`, which finds for each action where its
-- dynamic inputs come from.
use tx_proof.Common.{
  ℕ, suc, ◌+◌, ◌%◌, Bool, true, false, Option, none, some, List, [], ◌∷◌, ◌++◌, length, get_elem?,
  Result, ok, ◌>>=◌, ok_or, ◌==◌, if◌then◌else◌,
}
use tx_proof.Plan.Types.{
  ProviderOutcome, pre_execute_429, pre_execute_500, ProviderOutcomeScript, outcomes,
  terminal_outcome, commit_then_delay, PlanActionKind, drive_checkout, retry_business_request,
  retrieve_payment_intent, confirm_payment_intent, retry_provider_request, generate_provider_event,
  release_provider_gate,
}
use tx_proof.Plan.Compiler.{PlannedAction}
use tx_proof.Trace.Types.{
  CaseOutputRef, CaseOutputSlot, CaseInputSlot, payment_intent_output, event_output, gate_output,
  CaseActionInput, payment_intent_input, gate_input, CompiledCaseAction,
  CaseTraceMaterializationError, missing_dynamic_source,
}

-- `CaseOutputRef::new`
abbrev pub output_of : ℕ → CaseOutputSlot → CaseOutputRef
output_of action_id slot = record { action_id = action_id; slot = slot; occurrence = 0 }

abbrev pub for_occurrence : ℕ → CaseOutputSlot → ℕ → CaseOutputRef
for_occurrence action_id slot occurrence = record {
  action_id = action_id;
  slot = slot;
  occurrence = occurrence;
}

-- The variables of the loop.
pub record TraceState : Type 0 where
  pub active_payment_intent : Option CaseOutputRef
  pub provider_objects : List CaseOutputRef
  pub generated_provider_events : ℕ
  pub held_provider_gate : Option CaseOutputRef

abbrev pub new_trace : TraceState
new_trace = record {
  active_payment_intent = none;
  provider_objects = [];
  generated_provider_events = 0;
  held_provider_gate = none;
}

abbrev pub provider_create_commits : ProviderOutcome → Bool
provider_create_commits pre_execute_429 = false
provider_create_commits pre_execute_500 = false
provider_create_commits _ = true

abbrev pub delays_response : ProviderOutcome → Bool
delays_response commit_then_delay = true
delays_response _ = false

-- `terminal_outcome() == ProviderOutcome::CommitThenDelay`
abbrev pub is_held : ProviderOutcomeScript → Bool
is_held script = delays_response (terminal_outcome script)

-- What one iteration finds: inputs, declared outputs and the variables after it.
pub record Found : Type 0 where
  pub inputs : List CaseActionInput
  pub declared : List CaseOutputRef
  pub state : TraceState

abbrev pub reserve_object :
    ℕ → ℕ → ProviderOutcome → List CaseOutputRef × TraceState → List CaseOutputRef × TraceState
reserve_object action_id occurrence outcome (declared, state) =
    if provider_create_commits outcome
    then (
      declared ++ for_occurrence action_id payment_intent_output occurrence ∷ [],
      record state {
        active_payment_intent = some (for_occurrence action_id payment_intent_output occurrence);
        provider_objects =
            state.provider_objects
            ++ for_occurrence action_id payment_intent_output occurrence ∷ [];
      },
    )
    else (declared, state)

abbrev pub reserve_objects :
    ℕ → ℕ → List ProviderOutcome → List CaseOutputRef × TraceState → List CaseOutputRef × TraceState
reserve_objects action_id occurrence [] reserved = reserved
reserve_objects action_id occurrence (outcome ∷ outcomes') reserved =
    reserve_objects action_id (suc occurrence) outcomes'
      (reserve_object action_id occurrence outcome reserved)

abbrev pub reserve_gate :
    ℕ → ProviderOutcomeScript → List CaseOutputRef × TraceState → List CaseOutputRef × TraceState
reserve_gate action_id script (declared, state) =
    if is_held script
    then (
      declared ++ output_of action_id gate_output ∷ [],
      record state { held_provider_gate = some (output_of action_id gate_output) },
    )
    else (declared, state)

unfoldable pub reserve_business_provider_outputs :
    ℕ → ProviderOutcomeScript → TraceState → List CaseOutputRef × TraceState
reserve_business_provider_outputs action_id script state =
    reserve_gate action_id script (reserve_objects action_id 0 (outcomes script) ([], state))

abbrev pub business_found : ℕ → ProviderOutcomeScript → TraceState → Found
business_found action_id script state =
    let reserved = reserve_business_provider_outputs action_id script state in
    record { inputs = []; declared = reserved.0; state = reserved.1 }

abbrev pub input_from : CaseInputSlot → CaseOutputRef → CaseActionInput
input_from slot source = record { slot = slot; source = source }

abbrev pub active_input :
    ℕ → Option CaseOutputRef → Result CaseTraceMaterializationError CaseActionInput
active_input action_id active = do
  source ← ok_or active (missing_dynamic_source action_id payment_intent_input)
  ok (input_from payment_intent_input source)

abbrev pub provider_found :
    ℕ → ProviderOutcomeScript → TraceState → Result CaseTraceMaterializationError Found
provider_found action_id script state = do
  input ← active_input action_id state.active_payment_intent
  let reserved = reserve_gate action_id script ([], state)
  ok (record { inputs = input ∷ []; declared = reserved.0; state = reserved.1 })

-- `checked_rem`, which has no result for no objects
abbrev pub checked_rem : ℕ → ℕ → Option ℕ
checked_rem n m = if m == 0 then none else some (n % m)

abbrev pub event_found : ℕ → TraceState → Result CaseTraceMaterializationError Found
event_found action_id state = do
  let missing = missing_dynamic_source action_id payment_intent_input
  index ←
      ok_or (checked_rem state.generated_provider_events (length state.provider_objects)) missing
  source ← ok_or (get_elem? state.provider_objects index) missing
  ok (record {
    inputs = input_from payment_intent_input source ∷ [];
    declared = output_of action_id event_output ∷ [];
    state = record state { generated_provider_events = state.generated_provider_events + 1 };
  })

abbrev pub release_found : ℕ → TraceState → Result CaseTraceMaterializationError Found
release_found action_id state = do
  source ← ok_or state.held_provider_gate (missing_dynamic_source action_id gate_input)
  ok (record {
    inputs = input_from gate_input source ∷ [];
    declared = [];
    state = record state { held_provider_gate = none };
  })

-- The `match` of the loop's body
abbrev pub find_sources :
    ℕ → PlanActionKind → TraceState → Result CaseTraceMaterializationError Found
find_sources action_id (drive_checkout script) state = ok (business_found action_id script state)
find_sources action_id (retry_business_request script) state =
    ok (business_found action_id script state)
find_sources action_id retrieve_payment_intent state = do
  input ← active_input action_id state.active_payment_intent
  ok (record { inputs = input ∷ []; declared = []; state = state })
find_sources action_id (confirm_payment_intent script) state = provider_found action_id script state
find_sources action_id (retry_provider_request script) state = provider_found action_id script state
find_sources action_id generate_provider_event state = event_found action_id state
find_sources action_id release_provider_gate state = release_found action_id state
find_sources action_id _ state = ok (record { inputs = []; declared = []; state = state })

abbrev pub compiled_action : PlannedAction → Found → CompiledCaseAction
compiled_action planned found = record {
  id = planned.id;
  logical_sequence = planned.logical_sequence;
  dependencies = planned.dependencies;
  decision_number = planned.decision_number;
  eligible_count = planned.eligible_count;
  kind = planned.kind;
  inputs = found.inputs;
  declared_outputs = found.declared;
}

unfoldable pub materialize_from_state :
    TraceState → List PlannedAction → Result CaseTraceMaterializationError (List CompiledCaseAction)
materialize_from_state state [] = ok []
materialize_from_state state (planned ∷ actions) = do
  found ← find_sources planned.id planned.kind state
  rest ← materialize_from_state found.state actions
  ok (compiled_action planned found ∷ rest)

abbrev pub materialize_case_actions :
    List PlannedAction → Result CaseTraceMaterializationError (List CompiledCaseAction)
materialize_case_actions actions = materialize_from_state new_trace actions
