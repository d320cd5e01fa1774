-- ===== src/Plan/Model.antt =====
-- crates/tiv-core/src/plan.rs: the state of the lifecycle model.
use tx_proof.Common.{ℕ, Bool, true, false, String, string_discrete, holds, ltb, ℕ_discrete}
use tx_proof.Plan.Types.{
  ProviderOutcome, normal, commit_then_delay, ProcessCutPoint, client_request_forwarded,
  client_response_observed, webhook_request_forwarded, webhook_response_observed, sql_probe,
  PlanActionKind, drive_checkout, retry_business_request, deliver_webhook, duplicate_webhook,
  terminal_outcome,
}
use tx_proof.Plan.Limits.{legacy_scheduler_algorithm}

pub record EventState : Type 0 where
  pub generated : ℕ
  pub pending : ℕ
  pub delivered : ℕ
  pub duplicates : ℕ
  pub delay_used : Bool
  pub reorder_used : Bool

pub data Phase : Type 0 where
  start : Phase
  checkout_retryable : ℕ → Bool → Phase
  checkout_response_held payment_intent_known : Phase
  confirm_retryable : ℕ → Bool → Phase
  confirm_response_held confirmed : Phase
  events : EventState → Phase
  quiesced complete : Phase

pub data CutPointObservation : Type 0 where
  nothing initial_checkout_response checkout_response checkout_request_held webhook_delivery :
      CutPointObservation

pub record ModelState : Type 0 where
  pub phase : Phase
  pub provider_objects : ℕ
  pub application_healthy : Bool
  pub process_kills : ℕ
  pub legacy_cut_points : Bool
  pub observation : CutPointObservation

unfoldable pub for_scheduler : String → ModelState
unfolding string_discrete
for_scheduler scheduler = record {
  phase = start;
  provider_objects = 0;
  application_healthy = true;
  process_kills = 0;
  legacy_cut_points = holds (string_discrete scheduler legacy_scheduler_algorithm);
  observation = nothing;
}

abbrev pub phase_is_complete : Phase → Bool
phase_is_complete complete = true
phase_is_complete _ = false

abbrev pub is_complete : ModelState → Bool
is_complete state = phase_is_complete state.phase

abbrev held_or_answered : ProviderOutcome → CutPointObservation
held_or_answered commit_then_delay = checkout_request_held
held_or_answered _ = checkout_response

abbrev initial_answer : ProviderOutcome → CutPointObservation
initial_answer normal = initial_checkout_response
initial_answer outcome = held_or_answered outcome

-- `CutPointObservation::after`
abbrev pub after : PlanActionKind → CutPointObservation
after (drive_checkout script) = initial_answer (terminal_outcome script)
after (retry_business_request script) = held_or_answered (terminal_outcome script)
after deliver_webhook = webhook_delivery
after duplicate_webhook = webhook_delivery
after _ = nothing

-- `CutPointObservation::supports`
abbrev pub supports : CutPointObservation → ProcessCutPoint → Bool
supports checkout_request_held client_request_forwarded = true
supports initial_checkout_response client_response_observed = true
supports checkout_response client_response_observed = true
supports initial_checkout_response sql_probe = true
supports webhook_delivery webhook_request_forwarded = true
supports webhook_delivery webhook_response_observed = true
supports _ _ = false

abbrev request_was_forwarded : Phase → Bool
request_was_forwarded (checkout_retryable _ _) = true
request_was_forwarded checkout_response_held = true
request_was_forwarded payment_intent_known = true
request_was_forwarded (confirm_retryable _ _) = true
request_was_forwarded confirm_response_held = true
request_was_forwarded confirmed = true
request_was_forwarded _ = false

abbrev response_was_observed : Phase → Bool
response_was_observed (checkout_retryable _ _) = true
response_was_observed payment_intent_known = true
response_was_observed (confirm_retryable _ _) = true
response_was_observed confirmed = true
response_was_observed _ = false

abbrev webhook_was_delivered : Phase → Bool
webhook_was_delivered (events e) = ltb 0 e.delivered
webhook_was_delivered _ = false

abbrev sql_was_probed : Phase → Bool
sql_was_probed checkout_response_held = true
sql_was_probed payment_intent_known = true
sql_was_probed (confirm_retryable _ _) = true
sql_was_probed confirm_response_held = true
sql_was_probed confirmed = true
sql_was_probed (events _) = true
sql_was_probed _ = false

abbrev pub cut_point_is_observable : Phase → ProcessCutPoint → Bool
cut_point_is_observable phase client_request_forwarded = request_was_forwarded phase
cut_point_is_observable phase client_response_observed = response_was_observed phase
cut_point_is_observable phase webhook_request_forwarded = webhook_was_delivered phase
cut_point_is_observable phase webhook_response_observed = webhook_was_delivered phase
cut_point_is_observable phase sql_probe = sql_was_probed phase

unfoldable pub state_discrete : Discrete ModelState
unfolding ℕ_discrete
state_discrete = hlevel ℕ_discrete
