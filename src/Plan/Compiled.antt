-- ===== src/Plan/Compiled.antt =====
-- crates/tiv-core/src/plan.rs: what `CasePlanCompiler` promises.
use tx_proof.Common.{
  ℕ, suc, ◌≤◌, ◌<◌, ◌≡◌, refl, ap, subst, arith, Option, none, some, List, [], ◌∷◌, length, String,
  Result, ok, err, Bool-cases, inl, inr, ltb, ◌↔◌,
}
use tx_proof.Decision.{RandomSource, new_engine}
use tx_proof.Plan.Types.{PlanActionKind}
use tx_proof.Plan.Spec.{PlanSpec}
use tx_proof.Plan.Model.{for_scheduler}
use tx_proof.Plan.Minimum.{Cache, empty_cache, minimum_actions_to_complete, search_fuel}
use tx_proof.Plan.Measure.{InBounds, measure}
use tx_proof.Plan.History.{Completes, IsDistance, Reaches-Completes}
use tx_proof.Plan.Feasible.{IsValid, IsValid-InBounds, standard_history, standard_history-Completes}
use tx_proof.Plan.Affordable.{IsSound, IsDistance-history, minimum-IsSound}
use tx_proof.Plan.Numbering.{IsNumbered}
use tx_proof.Plan.Planning.{IsOnPlan, kinds, plan_loop-IsOnPlan}
use tx_proof.Plan.Compiler.{
  PlannedAction, PlannedCase, PlanCompileError, invalid_spec, budget_cannot_reach_checkpoint,
  no_eligible_action, initial_loop, compile_with_scheduler,
}

-- The result of compiling a valid specification. A case is a history that completes within the
-- budget, with consecutive numbers. The only refusal is of a budget that no history fits.
abbrev pub IsCompiled : PlanSpec → String → Result PlanCompileError PlannedCase → Type 0
IsCompiled spec scheduler (ok planned) =
    (planned.spec ≡ spec)
    × (planned.scheduler_algorithm ≡ scheduler)
    × Completes spec (for_scheduler scheduler) (kinds planned.actions)
    × (length planned.actions ≤ spec.max_actions.value)
    × (planned.decision_count ≡ length planned.actions)
    × IsNumbered planned.actions
IsCompiled spec scheduler (err (budget_cannot_reach_checkpoint max_actions)) =
    (max_actions ≡ spec.max_actions.value)
    × ((actions : List PlanActionKind)
        → Completes spec (for_scheduler scheduler) actions
        → spec.max_actions.value < length actions)
IsCompiled spec scheduler (err _) = ⊥

initial_low :
    (spec : PlanSpec) (scheduler : String)
    → InBounds spec
    → measure spec (for_scheduler scheduler) < search_fuel
unfolding for_scheduler
initial_low spec scheduler bounds = omega (arith, bounds.kills)

pub length-kinds : (actions : List PlannedAction) → length (kinds actions) ≡ length actions
length-kinds [] = refl
length-kinds (action ∷ actions) = ap suc (length-kinds actions)

none≢some : {r : Option ℕ} → none ≡ some r → ⊥
none≢some e = cc

module _ {R : Type 0} (source : RandomSource R) (spec : PlanSpec) (valid : IsValid spec)
    (scheduler : String) where
  initial_plan :
      (d : ℕ)
      → IsDistance spec (for_scheduler scheduler) (some d)
      → d ≤ spec.max_actions.value
      → (cache : Cache) → IsSound spec cache
      → IsOnPlan spec
          (for_scheduler scheduler)
          (initial_loop source spec (for_scheduler scheduler) cache)
  unfolding new_engine
  initial_plan d short fits cache sound = record {
    reached = refl;
    low = initial_low spec scheduler (IsValid-InBounds spec valid.accepted);
    sound = sound;
    numbered = tt;
    decisions = refl;
    feasible = (d, short, omega arith);
  }

  -- Every valid specification compiles to a complete, numbered history within its budget, or is
  -- refused because every complete history is longer than the budget.
  pub compile-IsCompiled : IsCompiled spec scheduler (compile_with_scheduler source spec scheduler)
  unfolding compile_with_scheduler
  compile-IsCompiled =
      let bounds = IsValid-InBounds spec valid.accepted in
      let initial = for_scheduler scheduler in
      let searched = minimum_actions_to_complete search_fuel spec initial empty_cache in
      let (found, sound) =
        minimum-IsSound spec bounds initial empty_cache (initial_low spec scheduler bounds)
          (λ s r e. absurd (none≢some e)) in
      let (d, same, short) =
        IsDistance-history spec initial searched.0 (standard_history spec) found
          (standard_history-Completes spec scheduler valid.accepted) in
      let distance : IsDistance spec initial (some d) =
        subst (IsDistance spec initial) same found in
      elim (Bool-cases (ltb spec.max_actions.value d)) [
        | inl tight ↦
            rw (valid.accepted, same, tight)
              (refl, λ actions c. let low = distance.1 actions c in ground arith)
        | inr enough ↦
            let (last, ran, done, plan) =
              plan_loop-IsOnPlan spec bounds source initial (suc spec.max_actions.value)
                (initial_loop source spec initial searched.1)
                (initial_plan d distance (ground arith) searched.1 sound) (omega arith)
                valid.budget in
            let fits : length last.actions ≤ spec.max_actions.value =
              let (d', s', f) = plan.feasible in omega arith in
            rw (valid.accepted, same, enough, ran)
              (
                refl,
                refl,
                Reaches-Completes spec initial last.state (kinds last.actions) plan.reached done,
                fits,
                refl,
                plan.numbered,
              )
      ]

  -- A valid specification compiles exactly if some complete history fits its budget.
  pub compile-ok_iff :
      ((planned : PlannedCase) × (compile_with_scheduler source spec scheduler ≡ ok planned)) ↔ (
        (actions : List PlanActionKind) × Completes spec (for_scheduler scheduler) actions
        × (length actions ≤ spec.max_actions.value))
  compile-ok_iff = by_result (compile_with_scheduler source spec scheduler) compile-IsCompiled
    where
      by_result :
          (result : Result PlanCompileError PlannedCase)
          → IsCompiled spec scheduler result
          → ((planned : PlannedCase) × (result ≡ ok planned)) ↔ (
              (actions : List PlanActionKind) × Completes spec (for_scheduler scheduler) actions
              × (length actions ≤ spec.max_actions.value))
      by_result (ok planned) h = (
        λ p. (kinds planned.actions, h.2, omega (arith, length-kinds planned.actions)),
        λ history. (planned, refl),
      )
      by_result (err (budget_cannot_reach_checkpoint n)) h =
          (λ p. cc (p.1), λ history. absurd (omega (arith, h.1 history.0 history.1)))
      by_result (err no_eligible_action) h = elim h [ ]
      by_result (err (invalid_spec e)) h = elim h [ ]
