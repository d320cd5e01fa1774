-- ===== src/Plan/Feasible.antt =====
-- crates/tiv-core/src/plan.rs: a valid specification can always be completed: one checkout and one
-- confirmation that both succeed, every event generated and delivered, quiescence and the check.
use tx_proof.Common.{
  ℕ, ◌≤◌, ◌<◌, ◌≡◌, refl, arith, Bool, true, false, inl, List, [], ◌∷◌, ◌++◌, flat_map,
  if◌then◌else◌, String, Member, Member-map, Member-flat_map, Member-append_left, Member-contains,
  ok,
}
use tx_proof.Plan.Types.{
  normal, single, outcome_discrete, PlanActionKind, drive_checkout, confirm_payment_intent,
  generate_provider_event, deliver_webhook, wait_for_quiescence, check_checkpoint, final,
}
use tx_proof.Plan.Limits.{max_actions_per_case}
use tx_proof.Plan.Spec.{PlanSpec, validate_spec}
use tx_proof.Plan.Model.{
  ModelState, CutPointObservation, EventState, start, payment_intent_known, confirmed,
  for_scheduler,
}
use tx_proof.Plan.Eligible.{
  target_events, business_scripts, event_actions, kill_actions, phase_actions, eligible_actions,
}
use tx_proof.Plan.Apply.{first_event, advance, apply_action}
use tx_proof.Plan.Measure.{InBounds}
use tx_proof.Plan.History.{Completes}

pub record IsValid (spec : PlanSpec) : Type 0 where
  pub accepted : validate_spec spec ≡ ok tt
  pub budget : spec.max_actions.value ≤ max_actions_per_case

pub IsValid-InBounds : (spec : PlanSpec) → validate_spec spec ≡ ok tt → InBounds spec
unfolding validate_spec
IsValid-InBounds spec h = ground arith

pub IsValid-normal :
    (spec : PlanSpec) → validate_spec spec ≡ ok tt → Member normal spec.provider_outcomes
unfolding validate_spec
IsValid-normal spec h =
    Member-contains outcome_discrete spec.provider_outcomes normal (ground arith)

-- The events that one provider object has.
abbrev event_history : Bool → List PlanActionKind → List PlanActionKind
event_history true rest =
    generate_provider_event ∷ generate_provider_event ∷ deliver_webhook ∷ deliver_webhook ∷ rest
event_history false rest = generate_provider_event ∷ deliver_webhook ∷ rest

abbrev pub standard_history : PlanSpec → List PlanActionKind
standard_history spec =
    drive_checkout (single normal)
    ∷ confirm_payment_intent (single normal)
    ∷ event_history spec.webhook_faults.allow_stale_event
        (wait_for_quiescence ∷ check_checkpoint final ∷ [])

module _ (spec : PlanSpec) (valid : validate_spec spec ≡ ok tt) where
  offered_start : Member (drive_checkout (single normal)) (phase_actions start 0 spec)
  unfolding phase_actions outcome_discrete
  offered_start =
      Member-map drive_checkout (single normal)
        (flat_map (business_scripts spec) spec.provider_outcomes)
        (Member-flat_map (business_scripts spec) (single normal) normal spec.provider_outcomes
          (IsValid-normal spec valid) (inl refl))

  offered_known :
      (objects : ℕ)
      → Member
          (confirm_payment_intent (single normal))
          (phase_actions payment_intent_known objects spec)
  unfolding phase_actions
  offered_known objects =
      Member-map (λ outcome. confirm_payment_intent (single outcome)) normal spec.provider_outcomes
        (IsValid-normal spec valid)

-- The conditions under which a phase with events offers the actions of the standard history.
module _ (spec : PlanSpec) (objects : ℕ) (e : EventState) where
  offered_generate :
      e.generated < target_events objects spec
      → Member generate_provider_event (event_actions e objects spec)
  unfolding event_actions
  offered_generate more = ground arith

  offered_deliver :
      target_events objects spec ≤ e.generated
      → 0 < e.pending
      → Member deliver_webhook (event_actions e objects spec)
  unfolding event_actions
  offered_deliver all waiting = ground arith

  offered_wait :
      target_events objects spec ≤ e.generated
      → 0 < e.generated
      → e.pending ≡ 0
      → Member wait_for_quiescence (event_actions e objects spec)
  unfolding event_actions
  offered_wait all some_event settled = ground arith

-- A healthy application is offered all that its phase offers.
offered-eligible :
    (spec : PlanSpec) (state : ModelState) (action : PlanActionKind)
    → state.application_healthy ≡ true
    → Member action (phase_actions state.phase state.provider_objects spec)
    → Member action (eligible_actions state spec)
unfolding eligible_actions
offered-eligible spec state action healthy m =
    eligible_if state.application_healthy (phase_actions state.phase state.provider_objects spec)
      (kill_actions state spec) _ healthy m
  where
    eligible_if :
        (test : Bool) (xs ys zs : List PlanActionKind)
        → test ≡ true
        → Member action xs
        → Member action (if test then xs ++ ys else zs)
    eligible_if true xs ys zs e k = Member-append_left action xs ys k
    eligible_if false xs ys zs e k = cc

-- A confirmed case with one provider object, and what the standard history leaves of it to do.
abbrev confirmed_case : Bool → CutPointObservation → ModelState
confirmed_case legacy observation = record {
  phase = confirmed;
  provider_objects = 1;
  application_healthy = true;
  process_kills = 0;
  legacy_cut_points = legacy;
  observation = observation;
}

abbrev counted_events : ℕ → ℕ → ℕ → EventState
counted_events generated pending delivered = record first_event {
  generated = generated;
  pending = pending;
  delivered = delivered;
}

confirmed_case-Completes :
    (spec : PlanSpec) (legacy : Bool) (observation : CutPointObservation) (stale : Bool)
    → spec.webhook_faults.allow_stale_event ≡ stale
    → Completes spec
        (confirmed_case legacy observation)
        (event_history stale (wait_for_quiescence ∷ check_checkpoint final ∷ []))
unfolding apply_action advance phase_actions
confirmed_case-Completes spec legacy observation true e = (
  offered-eligible spec _ generate_provider_event refl (inl refl),
  (
    _,
    refl,
    (
      offered-eligible spec _ generate_provider_event refl
          (offered_generate spec 1 (counted_events 1 1 0) (ground arith)),
      (
        _,
        refl,
        (
          offered-eligible spec _ deliver_webhook refl
              (offered_deliver spec 1 (counted_events 2 2 0) (ground arith) (omega arith)),
          (
            _,
            refl,
            (
              offered-eligible spec _ deliver_webhook refl
                  (offered_deliver spec 1 (counted_events 2 1 1) (ground arith) (omega arith)),
              (
                _,
                refl,
                (
                  offered-eligible spec _ wait_for_quiescence refl (
                      offered_wait spec 1 (counted_events 2 0 2) (ground arith) (omega arith) refl),
                  (
                    _,
                    refl,
                    (
                      offered-eligible spec _ (check_checkpoint final) refl (inl refl),
                      (_, refl, refl),
                    ),
                  ),
                ),
              ),
            ),
          ),
        ),
      ),
    ),
  ),
)
confirmed_case-Completes spec legacy observation false e = (
  offered-eligible spec _ generate_provider_event refl (inl refl),
  (
    _,
    refl,
    (
      offered-eligible spec _ deliver_webhook refl
          (offered_deliver spec 1 (counted_events 1 1 0) (ground arith) (omega arith)),
      (
        _,
        refl,
        (
          offered-eligible spec _ wait_for_quiescence refl
              (offered_wait spec 1 (counted_events 1 0 1) (ground arith) (omega arith) refl),
          (
            _,
            refl,
            (offered-eligible spec _ (check_checkpoint final) refl (inl refl), (_, refl, refl)),
          ),
        ),
      ),
    ),
  ),
)

-- The standard history completes the case, from the state in which every case begins.
pub standard_history-Completes :
    (spec : PlanSpec) (scheduler : String)
    → validate_spec spec ≡ ok tt
    → Completes spec (for_scheduler scheduler) (standard_history spec)
unfolding for_scheduler apply_action advance
standard_history-Completes spec scheduler valid = (
  offered-eligible spec (for_scheduler scheduler) (drive_checkout (single normal)) refl
      (offered_start spec valid),
  (
    _,
    refl,
    (
      offered-eligible spec _ (confirm_payment_intent (single normal)) refl
          (offered_known spec valid 1),
      (_, refl, confirmed_case-Completes spec _ _ spec.webhook_faults.allow_stale_event refl),
    ),
  ),
)
