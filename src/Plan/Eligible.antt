-- ===== src/Plan/Eligible.antt =====
-- crates/tiv-core/src/plan.rs: which actions the lifecycle allows in a state.
use tx_proof.Common.{
  ℕ, some, Bool, not, ◌&&◌, ◌||◌, List, [], ◌∷◌, ◌++◌, map, filter, flat_map, ltb, leb, ◌==◌, ◌*◌,
  saturate8, if◌then◌else◌, holds,
}
use tx_proof.Plan.Types.{
  ProviderOutcome, normal, commit_then_close, ProviderOutcomeScript, single, outcome_discrete,
  PlanActionKind, drive_checkout, retrieve_payment_intent, release_provider_gate,
  retry_business_request, confirm_payment_intent, retry_provider_request, generate_provider_event,
  deliver_webhook, duplicate_webhook, delay_webhook, reorder_webhooks, drop_webhook,
  kill_application, restart_and_await_health, wait_for_quiescence, check_checkpoint, final,
}
use tx_proof.Plan.Spec.{PlanSpec}
use tx_proof.Plan.Model.{
  EventState, Phase, start, checkout_retryable, checkout_response_held, payment_intent_known,
  confirm_retryable, confirm_response_held, confirmed, events, quiesced, complete, ModelState,
  supports, cut_point_is_observable,
}

-- After a transport close the script names the outcome of the second call too. The call of
-- `with_transport_retry` accepts, since its first outcome is `commit_then_close`.
unfoldable pub business_scripts : PlanSpec → ProviderOutcome → List ProviderOutcomeScript
unfolding outcome_discrete
business_scripts spec first =
    if holds (outcome_discrete first commit_then_close)
    then map (λ retry. record { first = first; retry = some retry }) spec.provider_outcomes
    else single first ∷ []

abbrev pub retry_is_allowed : ℕ → ProviderOutcome → Bool
retry_is_allowed attempts outcome = ltb attempts 2 || holds (outcome_discrete outcome normal)

unfoldable pub retry_outcomes : PlanSpec → ℕ → List ProviderOutcome
retry_outcomes spec attempts = filter (retry_is_allowed attempts) spec.provider_outcomes

unfoldable pub retry_business_scripts : PlanSpec → ℕ → List ProviderOutcomeScript
retry_business_scripts spec attempts =
    flat_map (business_scripts spec) (filter (retry_is_allowed attempts) spec.provider_outcomes)

abbrev pub target_events : ℕ → PlanSpec → ℕ
target_events provider_objects spec =
    saturate8 (provider_objects * (if spec.webhook_faults.allow_stale_event then 2 else 1))

-- `actions.push(a)` under a test
abbrev pub only_if : Bool → List PlanActionKind → List PlanActionKind
only_if test actions = if test then actions else []

unfoldable pub event_actions : EventState → ℕ → PlanSpec → List PlanActionKind
event_actions e provider_objects spec =
    if ltb e.generated (target_events provider_objects spec)
    then generate_provider_event ∷ []
    else only_if (ltb 0 e.pending) (
        deliver_webhook
          ∷ only_if (not e.delay_used) (map delay_webhook spec.webhook_faults.delays_millis)
        ++ only_if spec.webhook_faults.allow_drop (drop_webhook ∷ []))
      ++ (only_if (leb 2 e.pending && spec.webhook_faults.allow_reorder && not e.reorder_used)
            (reorder_webhooks ∷ [])
          ++ (only_if (ltb 0 e.delivered && ltb e.duplicates spec.webhook_faults.duplicate_max)
                (duplicate_webhook ∷ [])
              ++ only_if (ltb 0 e.generated && e.pending == 0) (wait_for_quiescence ∷ [])))

-- The `match state.phase` of `eligible_actions`
unfoldable pub phase_actions : Phase → ℕ → PlanSpec → List PlanActionKind
unfolding business_scripts retry_business_scripts retry_outcomes event_actions
phase_actions start objects spec =
    map drive_checkout (flat_map (business_scripts spec) spec.provider_outcomes)
phase_actions (checkout_retryable attempts ambiguous) objects spec =
    map retry_business_request (retry_business_scripts spec attempts)
    ++ only_if ambiguous (retrieve_payment_intent ∷ [])
phase_actions checkout_response_held objects spec = release_provider_gate ∷ []
phase_actions confirm_response_held objects spec = release_provider_gate ∷ []
phase_actions payment_intent_known objects spec =
    map (λ outcome. confirm_payment_intent (single outcome)) spec.provider_outcomes
phase_actions (confirm_retryable attempts ambiguous) objects spec =
    map (λ outcome. retry_provider_request (single outcome)) (retry_outcomes spec attempts)
    ++ only_if ambiguous (retrieve_payment_intent ∷ [])
phase_actions confirmed objects spec = generate_provider_event ∷ []
phase_actions (events e) objects spec = event_actions e objects spec
phase_actions quiesced objects spec = check_checkpoint final ∷ []
phase_actions complete objects spec = []

unfoldable pub kill_actions : ModelState → PlanSpec → List PlanActionKind
kill_actions state spec = only_if (ltb state.process_kills spec.process_faults.max_kills) (
    map kill_application (
      filter
        (λ cut_point.
          if state.legacy_cut_points
          then cut_point_is_observable state.phase cut_point
          else supports state.observation cut_point)
        spec.process_faults.cut_points))

unfoldable pub eligible_actions : ModelState → PlanSpec → List PlanActionKind
unfolding phase_actions kill_actions
eligible_actions state spec =
    if state.application_healthy
    then phase_actions state.phase state.provider_objects spec ++ kill_actions state spec
    else restart_and_await_health ∷ []
