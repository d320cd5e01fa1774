-- ===== src/Plan/Guards.antt =====
-- crates/tiv-core/src/plan.rs: what it means for an action to be offered by `eligible_actions`, as
-- a predicate on the phase and the action.
use tx_proof.Common.{
  ℕ, ◌≤◌, ◌<◌, ◌≡◌, refl, arith, Bool, true, false, not, ◌&&◌, List, [], ◌∷◌, ◌++◌, map,
  if◌then◌else◌, ltb, All, All-append, All-map, All-map_of, All-flat_map, All-filter, All-imp, leb,
}
use tx_proof.Plan.Types.{
  ProviderOutcome, commit_then_close, terminal_outcome, outcome_discrete, ProcessCutPoint,
  PlanActionKind, drive_checkout, retrieve_payment_intent, release_provider_gate,
  retry_business_request, confirm_payment_intent, retry_provider_request, generate_provider_event,
  deliver_webhook, duplicate_webhook, delay_webhook, reorder_webhooks, drop_webhook,
  kill_application, restart_and_await_health, wait_for_quiescence, check_checkpoint, final,
}
use tx_proof.Plan.Spec.{PlanSpec}
use tx_proof.Plan.Model.{
  EventState, Phase, start, checkout_retryable, checkout_response_held, payment_intent_known,
  confirm_retryable, confirm_response_held, confirmed, events, quiesced, complete, ModelState,
  supports, cut_point_is_observable,
}
use tx_proof.Plan.Eligible.{
  business_scripts, retry_is_allowed, target_events, only_if, event_actions, phase_actions,
  kill_actions, eligible_actions,
}

-- The conditions on the events of a phase, once every event is generated.
abbrev pub EventPermits : PlanSpec → EventState → PlanActionKind → Type 0
EventPermits spec e deliver_webhook = 0 < e.pending
EventPermits spec e (delay_webhook _) = (0 < e.pending) × (e.delay_used ≡ false)
EventPermits spec e drop_webhook = (0 < e.pending) × (spec.webhook_faults.allow_drop ≡ true)
EventPermits spec e reorder_webhooks =
    (2 ≤ e.pending) × (spec.webhook_faults.allow_reorder ≡ true) × (e.reorder_used ≡ false)
EventPermits spec e duplicate_webhook =
    (0 < e.delivered) × (e.duplicates < spec.webhook_faults.duplicate_max)
EventPermits spec e wait_for_quiescence = (0 < e.generated) × (e.pending ≡ 0)
EventPermits spec e _ = ⊥

abbrev pub PhasePermits : PlanSpec → ℕ → Phase → PlanActionKind → Type 0
PhasePermits spec objects start (drive_checkout script) = Unit
PhasePermits spec objects (checkout_retryable attempts ambiguous) (retry_business_request script) =
    retry_is_allowed attempts (terminal_outcome script) ≡ true
PhasePermits spec objects (checkout_retryable attempts ambiguous) retrieve_payment_intent =
    ambiguous ≡ true
PhasePermits spec objects checkout_response_held release_provider_gate = Unit
PhasePermits spec objects payment_intent_known (confirm_payment_intent script) = Unit
PhasePermits spec objects (confirm_retryable attempts ambiguous) (retry_provider_request script) =
    retry_is_allowed attempts (terminal_outcome script) ≡ true
PhasePermits spec objects (confirm_retryable attempts ambiguous) retrieve_payment_intent =
    ambiguous ≡ true
PhasePermits spec objects confirm_response_held release_provider_gate = Unit
PhasePermits spec objects confirmed generate_provider_event = Unit
PhasePermits spec objects (events e) generate_provider_event =
    e.generated < target_events objects spec
PhasePermits spec objects (events e) action =
    (target_events objects spec ≤ e.generated) × EventPermits spec e action
PhasePermits spec objects quiesced (check_checkpoint final) = Unit
PhasePermits spec objects _ _ = ⊥

abbrev pub KillPermits : PlanSpec → ModelState → ProcessCutPoint → Type 0
KillPermits spec state cut_point =
    (state.process_kills < spec.process_faults.max_kills)
    × ((if state.legacy_cut_points
          then cut_point_is_observable state.phase cut_point
          else supports state.observation cut_point)
        ≡ true)

abbrev pub Permits : PlanSpec → ModelState → PlanActionKind → Type 0
Permits spec state (kill_application cut_point) =
    (state.application_healthy ≡ true) × KillPermits spec state cut_point
Permits spec state restart_and_await_health = state.application_healthy ≡ false
Permits spec state action =
    (state.application_healthy ≡ true) × PhasePermits spec state.provider_objects state.phase action

All-if :
    (P : PlanActionKind → Type 0) (test : Bool) (actions others : List PlanActionKind)
    → (test ≡ true → All P actions)
    → (test ≡ false → All P others)
    → All P (if test then actions else others)
All-if P true actions others h k = h refl
All-if P false actions others h k = k refl

All-only_if :
    (P : PlanActionKind → Type 0) (test : Bool) (actions : List PlanActionKind)
    → (test ≡ true → All P actions)
    → All P (only_if test actions)
All-only_if P true actions h = h refl
All-only_if P false actions h = tt

business_scripts-allowed :
    (spec : PlanSpec) (attempts : ℕ) (first : ProviderOutcome)
    → retry_is_allowed attempts first ≡ true
    → All
        (λ script. retry_is_allowed attempts (terminal_outcome script) ≡ true)
        (business_scripts spec first)
unfolding business_scripts outcome_discrete
business_scripts-allowed spec attempts commit_then_close h =
    All-map _ _ spec.provider_outcomes (λ retry. ground arith)
business_scripts-allowed spec attempts _ h = (h, tt)

module _ (spec : PlanSpec) (objects : ℕ) where
  module _ (e : EventState) (reached : target_events objects spec ≤ e.generated) where
    only_if-Permits :
        (test : Bool) (action : PlanActionKind)
        → (test ≡ true → PhasePermits spec objects (events e) action)
        → All (PhasePermits spec objects (events e)) (only_if test (action ∷ []))
    only_if-Permits true action h = (h refl, tt)
    only_if-Permits false action h = tt

    pending_actions-Permits :
        0 < e.pending
        → All (PhasePermits spec objects (events e)) (
            deliver_webhook
              ∷ only_if (not e.delay_used) (map delay_webhook spec.webhook_faults.delays_millis)
            ++ only_if spec.webhook_faults.allow_drop (drop_webhook ∷ []))
    pending_actions-Permits pending =
        let P = PhasePermits spec objects (events e) in
        (
          (reached, pending),
          All-append P
              (only_if (not e.delay_used) (map delay_webhook spec.webhook_faults.delays_millis)) _
              (All-only_if P (not e.delay_used) _
                (λ d. All-map P delay_webhook _ λ ms. (reached, (pending, ground arith))))
              (only_if-Permits spec.webhook_faults.allow_drop drop_webhook
                (λ d. (reached, (pending, d)))),
        )

  event_actions-Permits :
      (e : EventState) → All (PhasePermits spec objects (events e)) (event_actions e objects spec)
  unfolding event_actions
  event_actions-Permits e =
      let P = PhasePermits spec objects (events e) in
      All-if P (ltb e.generated (target_events objects spec)) _ _ (λ more. (ground arith, tt))
        λ all.
          let reached : target_events objects spec ≤ e.generated = ground arith in
          (All-append P (only_if (ltb 0 e.pending) _) _
            (All-only_if P (ltb 0 e.pending) _
              (λ h. pending_actions-Permits e reached (ground arith)))
            (All-append P
              (only_if (leb 2 e.pending && spec.webhook_faults.allow_reorder && not e.reorder_used)
                _)
              _
              (only_if-Permits e reached _ reorder_webhooks
                (λ h. (reached, (ground arith, ground arith, ground arith))))
              (All-append P
                (only_if (ltb 0 e.delivered && ltb e.duplicates spec.webhook_faults.duplicate_max)
                  _)
                _
                (only_if-Permits e reached _ duplicate_webhook
                  (λ h. (reached, (ground arith, ground arith))))
                (only_if-Permits e reached _ wait_for_quiescence
                  (λ h. (reached, (ground arith, ground arith)))))))

  phase_actions-Permits :
      (phase : Phase) → All (PhasePermits spec objects phase) (phase_actions phase objects spec)
  unfolding phase_actions
  phase_actions-Permits start = All-map _ _ _ (λ script. tt)
  phase_actions-Permits (checkout_retryable attempts ambiguous) =
      All-append _ _ _
        (All-map_of _ _ _ _ (λ script h. h)
          (All-flat_map _ _ _ _ (business_scripts-allowed spec attempts)
            (All-filter (retry_is_allowed attempts) spec.provider_outcomes)))
        (All-only_if (PhasePermits spec objects (checkout_retryable attempts ambiguous)) ambiguous
          (retrieve_payment_intent ∷ []) (λ h. (h, tt)))
  phase_actions-Permits checkout_response_held = (tt, tt)
  phase_actions-Permits confirm_response_held = (tt, tt)
  phase_actions-Permits payment_intent_known = All-map _ _ _ (λ outcome. tt)
  phase_actions-Permits (confirm_retryable attempts ambiguous) =
      All-append _ _ _
        (All-map_of _ _ _ _ (λ outcome h. h)
          (All-filter (retry_is_allowed attempts) spec.provider_outcomes))
        (All-only_if (PhasePermits spec objects (confirm_retryable attempts ambiguous)) ambiguous
          (retrieve_payment_intent ∷ []) (λ h. (h, tt)))
  phase_actions-Permits confirmed = (tt, tt)
  phase_actions-Permits (events e) = event_actions-Permits e
  phase_actions-Permits quiesced = (tt, tt)
  phase_actions-Permits complete = tt

PhasePermits-Permits :
    (spec : PlanSpec) (state : ModelState)
    → state.application_healthy ≡ true
    → (action : PlanActionKind) → PhasePermits spec state.provider_objects state.phase action
    → Permits spec state action
PhasePermits-Permits spec state healthy (kill_application cut_point) p = ground arith
PhasePermits-Permits spec state healthy restart_and_await_health p = ground arith
PhasePermits-Permits spec state healthy _ p = (healthy, p)

kill_actions-Permits :
    (spec : PlanSpec) (state : ModelState)
    → state.application_healthy ≡ true
    → All (Permits spec state) (kill_actions state spec)
unfolding kill_actions
kill_actions-Permits spec state healthy =
    All-only_if (Permits spec state) (ltb state.process_kills spec.process_faults.max_kills) _ λ h.
      All-map_of _ (Permits spec state) kill_application _
        (λ cut_point observed. (healthy, (ground arith, observed)))
        (All-filter _ spec.process_faults.cut_points)

-- Every action that `eligible_actions` offers meets the conditions that the phase, the faults
-- left and the health of the application put on it.
pub eligible_actions-Permits :
    (spec : PlanSpec) (state : ModelState) → All (Permits spec state) (eligible_actions state spec)
unfolding eligible_actions
eligible_actions-Permits spec state =
    All-if (Permits spec state) state.application_healthy _ _
      (λ healthy.
        All-append (Permits spec state) (phase_actions state.phase state.provider_objects spec)
          (kill_actions state spec)
          (All-imp (PhasePermits-Permits spec state healthy) _
            (phase_actions-Permits spec state.provider_objects state.phase))
          (kill_actions-Permits spec state healthy))
      (λ down. (down, tt))
