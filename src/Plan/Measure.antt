-- ===== src/Plan/Measure.antt =====
-- crates/tiv-core/src/plan.rs: a number that every offered action brings down, so that the search
-- and the planner end. A kill costs a fault, and may send the client back to a checkout retry.
use tx_proof.Common.{ℕ, ◌+◌, ◌-◌, ◌*◌, ◌≤◌, ◌<◌, ◌≡◌, refl, arith, Bool, true, some, if◌then◌else◌}
use tx_proof.Plan.Types.{
  outcome_discrete, ProcessCutPoint, client_response_observed, PlanActionKind, drive_checkout,
  retrieve_payment_intent, release_provider_gate, retry_business_request, confirm_payment_intent,
  retry_provider_request, generate_provider_event, deliver_webhook, duplicate_webhook,
  delay_webhook, reorder_webhooks, drop_webhook, kill_application, restart_and_await_health,
  wait_for_quiescence, check_checkpoint, final,
}
use tx_proof.Plan.Spec.{PlanSpec}
use tx_proof.Plan.Model.{
  EventState, Phase, start, checkout_retryable, checkout_response_held, payment_intent_known,
  confirm_retryable, confirm_response_held, confirmed, events, quiesced, complete, ModelState,
}
use tx_proof.Plan.Eligible.{target_events}
use tx_proof.Plan.Apply.{advance, apply_action, kill, phase_after_kill, observe}
use tx_proof.Plan.Guards.{PhasePermits, Permits}

-- The bounds of v1 that the measure rests on.
pub record InBounds (spec : PlanSpec) : Type 0 where
  pub duplicates : spec.webhook_faults.duplicate_max ≤ 3
  pub kills : spec.process_faults.max_kills ≤ 1

abbrev unless : Bool → ℕ
unless used = if used then 0 else 1

abbrev pub event_rank : PlanSpec → ℕ → EventState → ℕ
event_rank spec objects e =
    2
    + 2 * (target_events objects spec - e.generated)
    + e.pending
    + unless e.delay_used
    + unless e.reorder_used
    + (spec.webhook_faults.duplicate_max - e.duplicates)

abbrev pub rank : PlanSpec → ℕ → Phase → ℕ
rank spec objects complete = 0
rank spec objects quiesced = 1
rank spec objects (events e) = event_rank spec objects e
rank spec objects confirmed = 600
rank spec objects confirm_response_held = 601
rank spec objects (confirm_retryable attempts ambiguous) = 602 + (2 - attempts)
rank spec objects payment_intent_known = 605
rank spec objects checkout_response_held = 606
rank spec objects (checkout_retryable attempts ambiguous) = 607 + (2 - attempts)
rank spec objects start = 610

abbrev pub measure : PlanSpec → ModelState → ℕ
measure spec state =
    20 * (spec.process_faults.max_kills - state.process_kills)
    + 2 * rank spec state.provider_objects state.phase
    + (if state.application_healthy then 0 else 1)

module _ (spec : PlanSpec) (bounds : InBounds spec) where
  -- An action that a healthy application takes brings the rank of the phase down, and leaves the
  -- kills and the health alone.
  advance-falls :
      (phase : Phase) (state next : ModelState) (action : PlanActionKind)
      → state.phase ≡ phase
      → PhasePermits spec state.provider_objects phase action
      → advance state action ≡ some next
      → (rank spec next.provider_objects next.phase < rank spec state.provider_objects phase)
        × (next.process_kills ≡ state.process_kills)
        × (next.application_healthy ≡ state.application_healthy)
  unfolding advance outcome_discrete
  advance-falls start state next (drive_checkout script) e p h = ground arith
  advance-falls (checkout_retryable attempts ambiguous) state next (retry_business_request script) e
        p h =
      ground arith
  advance-falls (checkout_retryable attempts ambiguous) state next retrieve_payment_intent e p h =
      ground arith
  advance-falls checkout_response_held state next release_provider_gate e p h = ground arith
  advance-falls payment_intent_known state next (confirm_payment_intent script) e p h = ground arith
  advance-falls (confirm_retryable attempts ambiguous) state next (retry_provider_request script) e
        p h =
      ground arith
  advance-falls (confirm_retryable attempts ambiguous) state next retrieve_payment_intent e p h =
      ground arith
  advance-falls confirm_response_held state next release_provider_gate e p h = ground arith
  advance-falls confirmed state next generate_provider_event e p h = ground arith
  advance-falls (events es) state next generate_provider_event e p h = ground arith
  advance-falls (events es) state next deliver_webhook e p h = ground arith
  advance-falls (events es) state next (delay_webhook ms) e p h = ground arith
  advance-falls (events es) state next drop_webhook e p h = ground arith
  advance-falls (events es) state next reorder_webhooks e p h = ground arith
  advance-falls (events es) state next duplicate_webhook e p h = ground arith
  advance-falls (events es) state next wait_for_quiescence e p h = ground arith
  advance-falls quiesced state next (check_checkpoint final) e p h = ground arith
  advance-falls _ state next _ e p h = absurd (ground arith)

  healthy-falls :
      (state next : ModelState) (action : PlanActionKind)
      → state.application_healthy ≡ true
      → PhasePermits spec state.provider_objects state.phase action
      → advance state action ≡ some next
      → measure spec next < measure spec state
  healthy-falls state next action healthy p h =
      let (lower, kills, health) = advance-falls state.phase state next action refl p h in
      ground arith

  kill_rank :
      (cut_point : ProcessCutPoint) (objects : ℕ) (phase : Phase)
      → rank spec objects (phase_after_kill cut_point phase) ≤ rank spec objects phase + 4
  kill_rank client_response_observed objects payment_intent_known = omega arith
  kill_rank _ objects _ = omega arith

  kill-falls :
      (state : ModelState) (cut_point : ProcessCutPoint)
      → state.process_kills < spec.process_faults.max_kills
      → measure spec (kill state cut_point) < measure spec state
  kill-falls state cut_point room =
      ground (arith, kill_rank cut_point state.provider_objects state.phase)

  -- Within the bounds of v1 every offered action that applies brings the measure down.
  pub apply_action-falls :
      (state next : ModelState) (action : PlanActionKind)
      → Permits spec state action
      → apply_action state action ≡ some next
      → measure spec next < measure spec state
  unfolding apply_action
  apply_action-falls state next (kill_application cut_point) p h =
      ground (arith, kill-falls (observe state (kill_application cut_point)) cut_point)
  apply_action-falls state next restart_and_await_health p h = ground arith
  apply_action-falls state next action p h =
      healthy-falls (observe state action) next action p.0 p.1 (ground arith)
