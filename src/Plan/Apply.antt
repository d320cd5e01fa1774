-- ===== src/Plan/Apply.antt =====
-- crates/tiv-core/src/plan.rs: the effect of an action on the lifecycle state.
use tx_proof.Common.{
  ℕ, ◌+◌, ◌-◌, Bool, true, false, not, ◌&&◌, Option, none, some, ◌==◌, wrap8, checked_add8,
  if◌then◌else◌,
}
use tx_proof.Plan.Types.{
  ProviderOutcome, normal, commit_then_delay, ProviderOutcomeScript, terminal_outcome,
  committed_count, has_ambiguous_commit, ProcessCutPoint, client_response_observed, PlanActionKind,
  drive_checkout, retrieve_payment_intent, release_provider_gate, retry_business_request,
  confirm_payment_intent, retry_provider_request, generate_provider_event, deliver_webhook,
  duplicate_webhook, delay_webhook, reorder_webhooks, drop_webhook, kill_application,
  restart_and_await_health, wait_for_quiescence, check_checkpoint, final,
}
use tx_proof.Plan.Model.{
  EventState, Phase, start, checkout_retryable, checkout_response_held, payment_intent_known,
  confirm_retryable, confirm_response_held, confirmed, events, quiesced, complete, ModelState,
  after,
}

abbrev pub create_phase : ProviderOutcome → Bool → ℕ → Phase
create_phase normal ambiguous attempts = payment_intent_known
create_phase commit_then_delay ambiguous attempts = checkout_response_held
create_phase _ ambiguous attempts = checkout_retryable attempts ambiguous

abbrev pub provider_create_phase : ProviderOutcomeScript → ℕ → Phase
provider_create_phase script attempts =
    create_phase (terminal_outcome script) (has_ambiguous_commit script) attempts

abbrev pub confirm_phase : ProviderOutcome → Bool → ℕ → Phase
confirm_phase normal ambiguous attempts = confirmed
confirm_phase commit_then_delay ambiguous attempts = confirm_response_held
confirm_phase _ ambiguous attempts = confirm_retryable attempts ambiguous

abbrev pub provider_confirm_phase : ProviderOutcomeScript → ℕ → Phase
provider_confirm_phase script attempts =
    confirm_phase (terminal_outcome script) (has_ambiguous_commit script) attempts

abbrev pub first_event : EventState
first_event = record {
  generated = 1;
  pending = 1;
  delivered = 0;
  duplicates = 0;
  delay_used = false;
  reorder_used = false;
}

abbrev pub apply_provider_action : Phase → PlanActionKind → Option Phase
apply_provider_action start (drive_checkout script) = some (provider_create_phase script 0)
apply_provider_action (checkout_retryable attempts _) (retry_business_request script) =
    some (provider_create_phase script (wrap8 (attempts + 1)))
apply_provider_action checkout_response_held release_provider_gate = some payment_intent_known
apply_provider_action (checkout_retryable _ true) retrieve_payment_intent =
    some payment_intent_known
apply_provider_action payment_intent_known (confirm_payment_intent script) =
    some (provider_confirm_phase script 0)
apply_provider_action (confirm_retryable attempts _) (retry_provider_request script) =
    some (provider_confirm_phase script (wrap8 (attempts + 1)))
apply_provider_action confirm_response_held release_provider_gate = some confirmed
apply_provider_action (confirm_retryable _ true) retrieve_payment_intent = some confirmed
apply_provider_action confirmed generate_provider_event = some (events first_event)
apply_provider_action _ _ = none

abbrev pub checked_pred : ℕ → Option ℕ
checked_pred n = if n == 0 then none else some (n - 1)

abbrev pub update_events : EventState → PlanActionKind → Option EventState
update_events e generate_provider_event =
    some (record e { generated = wrap8 (e.generated + 1); pending = wrap8 (e.pending + 1) })
update_events e deliver_webhook = elim (checked_pred e.pending) [
  | none ↦ none
  | some pending ↦ some (record e { pending = pending; delivered = wrap8 (e.delivered + 1) })
]
update_events e duplicate_webhook = some (record e { duplicates = wrap8 (e.duplicates + 1) })
update_events e (delay_webhook _) = some (record e { delay_used = true })
update_events e reorder_webhooks = some (record e { reorder_used = true })
update_events e drop_webhook = elim (checked_pred e.pending) [
  | none ↦ none
  | some pending ↦ some (record e { pending = pending })
]
update_events e _ = none

abbrev pub apply_event_action : Phase → PlanActionKind → Option Phase
apply_event_action (events e) action = elim (update_events e action) [
  | none ↦ none
  | some e' ↦ some (events e')
]
apply_event_action _ action = none

-- The last `match` of `apply_action`
abbrev pub close_phase : Phase → PlanActionKind → Option Phase
close_phase (events _) wait_for_quiescence = some quiesced
close_phase quiesced (check_checkpoint final) = some complete
close_phase _ _ = none

-- Only a create call commits a new provider object.
abbrev pub count_objects : ℕ → PlanActionKind → Option ℕ
count_objects objects (drive_checkout script) = checked_add8 objects (committed_count script)
count_objects objects (retry_business_request script) =
    checked_add8 objects (committed_count script)
count_objects objects _ = some objects

-- `apply_action` from the point where the application is known to be healthy
unfoldable pub advance : ModelState → PlanActionKind → Option ModelState
advance state action = elim (apply_provider_action state.phase action) [
  | some phase ↦ elim (count_objects state.provider_objects action) [
    | none ↦ none
    | some objects ↦ some (record state { phase = phase; provider_objects = objects })
  ]
  | none ↦ elim (apply_event_action state.phase action) [
    | some phase ↦ some (record state { phase = phase })
    | none ↦ elim (close_phase state.phase action) [
      | none ↦ none
      | some phase ↦ some (record state { phase = phase })
    ]
  ]
]

-- Losing the observed response of a checkout sends the client back to a fresh retry.
abbrev pub phase_after_kill : ProcessCutPoint → Phase → Phase
phase_after_kill client_response_observed payment_intent_known = checkout_retryable 0 false
phase_after_kill _ phase = phase

abbrev pub kill : ModelState → ProcessCutPoint → ModelState
kill state cut_point = record state {
  phase = phase_after_kill cut_point state.phase;
  application_healthy = false;
  process_kills = wrap8 (state.process_kills + 1);
}

abbrev pub observe : ModelState → PlanActionKind → ModelState
observe state action = record state {
  observation =
      if not state.legacy_cut_points && state.process_kills == 0
      then after action
      else state.observation;
}

abbrev by_health : ModelState → PlanActionKind → Option ModelState
by_health state (kill_application cut_point) =
    if state.application_healthy then some (kill state cut_point) else none
by_health state restart_and_await_health =
    if state.application_healthy
    then advance state restart_and_await_health
    else some (record state { application_healthy = true })
by_health state action = if state.application_healthy then advance state action else none

unfoldable pub apply_action : ModelState → PlanActionKind → Option ModelState
apply_action state action = by_health (observe state action) action
