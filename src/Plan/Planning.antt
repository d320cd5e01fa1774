-- ===== src/Plan/Planning.antt =====
-- crates/tiv-core/src/plan.rs: the invariant of the planner's loop. Every round keeps a shortest
-- history within what is left of the budget, so that the loop never runs out of eligible actions.
use tx_proof.Common.{
  ℕ, zero, suc, ◌+◌, ◌-◌, ◌≤◌, ◌<◌, ◌≡◌, refl, sym, ap, subst, ◌∙◌, arith, inl, inr, true, false,
  Option, none, some, List, [], ◌∷◌, ◌++◌, map, length, length-append_one, Member, Member-some, ◌^◌,
  All, All-member, All-imp, Bool-cases, ltb, Result, ok, err,
}
use mathlib.Core.Bool.{false≢true}
use tx_proof.Decision.{RandomSource, Decision, DecisionEngine, NoEligibleActions, choose}
use tx_proof.Decision.Choice.{IsChoice, choose-IsChoice}
use tx_proof.Plan.Types.{PlanActionKind}
use tx_proof.Plan.ActionOrder.{action_order}
use tx_proof.Plan.Limits.{max_actions_per_case}
use tx_proof.Plan.Spec.{PlanSpec}
use tx_proof.Plan.Model.{ModelState, is_complete}
use tx_proof.Plan.Eligible.{eligible_actions}
use tx_proof.Plan.Apply.{apply_action}
use tx_proof.Plan.Minimum.{Cache, empty_cache, minimum_actions_to_complete, search_fuel}
use tx_proof.Plan.Guards.{eligible_actions-Permits}
use tx_proof.Plan.Measure.{InBounds, measure, apply_action-falls}
use tx_proof.Plan.History.{IsDistance, Reaches, Reaches-append}
use tx_proof.Plan.Affordable.{
  IsSound, Affords, IsDistance-history, minimum-IsSound, affordable-Filters,
}
use tx_proof.Plan.Numbering.{IsNumbered, IsNumbered-append}
use tx_proof.Plan.Compiler.{
  PlannedAction, PlanLoop, planned_action, affordable, record_choice, plan_step, plan_loop,
}

abbrev pub kinds : List PlannedAction → List PlanActionKind
kinds = map (λ action. action.kind)

kinds-append :
    (actions : List PlannedAction) (action : PlannedAction)
    → kinds (actions ++ action ∷ []) ≡ kinds actions ++ action.kind ∷ []
kinds-append [] action = refl
kinds-append (first ∷ actions) action = ap (◌∷◌ first.kind) (kinds-append actions action)

none≢some : {r : Option ℕ} → none ≡ some r → ⊥
none≢some e = cc

-- The case can be completed within what is left of the budget.
abbrev pub IsFeasible : PlanSpec → ModelState → ℕ → Type 0
IsFeasible spec state used =
    (d : ℕ) × IsDistance spec state (some d) × (d + used ≤ spec.max_actions.value)

pub record IsOnPlan {R : Type 0} (spec : PlanSpec) (initial : ModelState) (loop : PlanLoop R)
    : Type 0 where
  pub reached : Reaches spec initial (kinds loop.actions) loop.state
  pub low : measure spec loop.state < search_fuel
  pub sound : IsSound spec loop.cache
  pub numbered : IsNumbered loop.actions
  pub decisions : loop.engine.decision_number ≡ length loop.actions
  pub feasible : IsFeasible spec loop.state (length loop.actions)

module _ (spec : PlanSpec) (bounds : InBounds spec) where
  next_is_low :
      (state : ModelState)
      → measure spec state < search_fuel
      → All
          (λ action.
            (next : ModelState)
            → apply_action state action ≡ some next
            → measure spec next < search_fuel)
          (eligible_actions state spec)
  next_is_low state low =
      All-imp
        (λ action p next e.
          let fall = apply_action-falls spec bounds state next action p e in omega arith)
        (eligible_actions state spec) (eligible_actions-Permits spec state)

  -- A shortest history of a state that is not complete begins with an action that can be afforded.
  some_action-Affords :
      (state : ModelState) (d remaining : ℕ)
      → measure spec state < search_fuel
      → is_complete state ≡ false
      → IsDistance spec state (some d)
      → d ≤ remaining
      → (action : PlanActionKind) × Member action (eligible_actions state spec)
        × Affords spec remaining (apply_action state action)
  some_action-Affords state d remaining low open_case (([], len, c), least) fits =
      absurd (false≢true (sym open_case ∙ c))
  some_action-Affords state d remaining low open_case
        ((action ∷ actions, len, (m, (next, e, c))), least) fits =
      let low' =
        All-member
          (λ a. (n : ModelState) → apply_action state a ≡ some n → measure spec n < search_fuel)
          (eligible_actions state spec) action (next_is_low state low) m next e in
      let (found, _) =
        minimum-IsSound spec bounds next empty_cache low' (λ s r h. absurd (none≢some h)) in
      let (d', same, short) =
        IsDistance-history spec next
          (minimum_actions_to_complete search_fuel spec next empty_cache).0 actions found c in
      (action, m, (next, e, (d', subst (IsDistance spec next) same found, omega arith)))

  module _ {R : Type 0} (source : RandomSource R) (initial : ModelState) where
    -- One round, from the choice on: the selected action applies, and the loop stays on plan.
    record_choice-IsOnPlan :
        (loop : PlanLoop R) (kept : List PlanActionKind) (cache : Cache)
        (chosen : Result NoEligibleActions (Decision PlanActionKind) × DecisionEngine R)
        → IsOnPlan spec initial loop
        → length loop.actions < spec.max_actions.value
        → spec.max_actions.value ≤ max_actions_per_case
        → IsChoice source action_order loop.engine kept chosen
        → (action : PlanActionKind) → Member action kept
        → ((a : PlanActionKind)
            → Member a kept
            → Member a (eligible_actions loop.state spec)
              × Affords spec
                  (spec.max_actions.value - length loop.actions)
                  (apply_action loop.state a))
        → IsSound spec cache
        → (next : PlanLoop R) × (record_choice source spec loop cache chosen ≡ ok next)
          × (length next.actions ≡ suc (length loop.actions))
          × IsOnPlan spec initial next
    record_choice-IsOnPlan loop kept cache (err e, engine) plan room limit choice action m back
          sound =
        absurd (Member-some kept action m choice.0)
    record_choice-IsOnPlan loop kept cache (ok decision, engine) plan room limit choice action m
          back sound =
        let (offered, (next, e, (d, short, less))) = back decision.selected choice.0 in
        let planned = planned_action loop.actions decision in
        (
          record {
            state = next;
            engine = engine;
            cache = cache;
            actions = loop.actions ++ planned ∷ [];
          },
          rw (e, fits) refl,
          length-append_one loop.actions planned,
          record {
            reached = rw (kinds-append loop.actions planned) (
                Reaches-append spec initial loop.state next (kinds loop.actions) decision.selected
                  plan.reached offered e);
            low =
                All-member
                  (λ a.
                    (n : ModelState)
                    → apply_action loop.state a ≡ some n
                    → measure spec n < search_fuel)
                  (eligible_actions loop.state spec) decision.selected
                  (next_is_low loop.state plan.low) offered next e;
            sound = sound;
            numbered =
                IsNumbered-append loop.actions planned plan.numbered refl refl refl
                  (choice.2 ∙ plan.decisions);
            decisions =
                omega (arith, length-append_one loop.actions planned, choice.3, plan.decisions);
            feasible = (d, short, omega (arith, length-append_one loop.actions planned));
          },
        )
      where
        fits : ltb (length loop.actions + 1) (2 ^ 32) ≡ true
        fits = ground arith

    -- Every round of the loop succeeds and adds one action.
    plan_step-IsOnPlan :
        (loop : PlanLoop R)
        → IsOnPlan spec initial loop
        → is_complete loop.state ≡ false
        → spec.max_actions.value ≤ max_actions_per_case
        → (next : PlanLoop R) × (plan_step source spec loop ≡ ok next)
          × (length next.actions ≡ suc (length loop.actions))
          × IsOnPlan spec initial next
    unfolding plan_step
    plan_step-IsOnPlan loop plan open_case limit =
        let remaining = spec.max_actions.value - length loop.actions in
        let offered = eligible_actions loop.state spec in
        let (d, short, fits) = plan.feasible in
        let (action, m, affords) =
          some_action-Affords loop.state d remaining plan.low open_case short (omega arith) in
        let kept = affordable spec remaining loop.state offered loop.cache in
        let (back, onto, sound) =
          affordable-Filters spec bounds remaining loop.state offered loop.cache
            (next_is_low loop.state plan.low) plan.sound in
        record_choice-IsOnPlan loop kept.0 kept.1 (choose source action_order loop.engine kept.0)
          plan (let (n, e, (d', s', less)) = affords in omega arith) limit
          (choose-IsChoice source action_order loop.engine kept.0) action (onto action m affords)
          back sound

    -- With a unit of fuel for every action that the budget still allows, and one more, the loop
    -- ends in a complete state.
    pub plan_loop-IsOnPlan :
        (fuel : ℕ) (loop : PlanLoop R)
        → IsOnPlan spec initial loop
        → fuel + length loop.actions ≡ suc spec.max_actions.value
        → spec.max_actions.value ≤ max_actions_per_case
        → (last : PlanLoop R) × (plan_loop source spec fuel loop ≡ ok last)
          × (is_complete last.state ≡ true)
          × IsOnPlan spec initial last
    unfolding plan_loop
    plan_loop-IsOnPlan zero loop plan enough limit =
        let (d, short, fits) = plan.feasible in absurd (omega arith)
    plan_loop-IsOnPlan (suc fuel) loop plan enough limit =
        elim (Bool-cases (is_complete loop.state)) [
          | inl done ↦ (loop, rw (done, plan_loop) refl, done, plan)
          | inr open_case ↦
              let (next, stepped, longer, plan') = plan_step-IsOnPlan loop plan open_case limit in
              let (last, ran, done, plan'') =
                plan_loop-IsOnPlan fuel next plan' (omega arith) limit in
              (last, rw (open_case, plan_loop, stepped) ran, done, plan'')
        ]
