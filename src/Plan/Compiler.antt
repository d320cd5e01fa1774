-- ===== src/Plan/Compiler.antt =====
-- crates/tiv-core/src/plan.rs: planned actions and cases, and `CasePlanCompiler`. The loop recurs on
-- fuel, one unit for each action of the budget and one for the last test.
use tx_proof.Common.{
  ℕ, zero, suc, ◌+◌, ◌-◌, ◌^◌, Bool, true, false, not, Option, none, some, List, [], ◌∷◌, ◌++◌,
  length, String, Result, ok, err, ◌>>=◌, ◌>>◌, reject_if, ok_or, map_err, ltb, if◌then◌else◌,
}
use tx_proof.Decision.{
  RandomSource, Decision, DecisionEngine, NoEligibleActions, new_engine, choose,
}
use tx_proof.Plan.Types.{PlanActionKind}
use tx_proof.Plan.ActionOrder.{action_order}
use tx_proof.Plan.Limits.{plan_schema_version, scheduler_algorithm}
use tx_proof.Plan.Spec.{PlanSpec, PlanValidationError, validate_spec}
use tx_proof.Plan.Model.{ModelState, is_complete, for_scheduler}
use tx_proof.Plan.Eligible.{eligible_actions}
use tx_proof.Plan.Apply.{apply_action}
use tx_proof.Plan.Minimum.{Cache, empty_cache, minimum_actions_to_complete, search_fuel}

pub record PlannedAction : Type 0 where
  pub id : ℕ
  pub logical_sequence : ℕ
  pub dependencies : List ℕ
  pub decision_number : ℕ
  pub eligible_count : ℕ
  pub kind : PlanActionKind

pub record PlannedCase : Type 0 where
  pub schema_version : ℕ
  pub scheduler_algorithm : String
  pub spec : PlanSpec
  pub decision_count : ℕ
  pub actions : List PlannedAction

pub data PlanCompileError : Type 0 where
  invalid_spec : PlanValidationError → PlanCompileError
  budget_cannot_reach_checkpoint : ℕ → PlanCompileError
  no_eligible_action : PlanCompileError

-- `is_some_and(|distance| distance < remaining)`
abbrev pub is_within : ℕ → Option ℕ → Bool
is_within remaining none = false
is_within remaining (some distance) = ltb distance remaining

abbrev pub keep_if : Bool → PlanActionKind → List PlanActionKind → List PlanActionKind
keep_if test action actions = if test then action ∷ actions else actions

abbrev pub afford :
    PlanSpec
    → ℕ
    → PlanActionKind
    → Option ModelState
    → (Cache → List PlanActionKind × Cache)
    → Cache
    → List PlanActionKind × Cache
afford spec remaining action none rest cache = rest cache
afford spec remaining action (some next) rest cache =
    let (distance, cache') = minimum_actions_to_complete search_fuel spec next cache in
    let (others, cache'') = rest cache' in
    (keep_if (is_within remaining distance) action others, cache'')

-- The `filter` of the loop, which shares the cache of the search.
abbrev pub affordable :
    PlanSpec → ℕ → ModelState → List PlanActionKind → Cache → List PlanActionKind × Cache
affordable spec remaining state [] cache = ([], cache)
affordable spec remaining state (action ∷ actions) cache =
    afford spec remaining action (apply_action state action)
      (affordable spec remaining state actions) cache

-- `actions.last().map_or_else(BTreeSet::new, |previous| BTreeSet::from([previous.id]))`
abbrev pub previous_id : List PlannedAction → List ℕ
previous_id [] = []
previous_id (action ∷ []) = action.id ∷ []
previous_id (action ∷ next ∷ rest) = previous_id (next ∷ rest)

abbrev pub planned_action : List PlannedAction → Decision PlanActionKind → PlannedAction
planned_action actions decision = record {
  id = length actions + 1;
  logical_sequence = length actions + 1;
  dependencies = previous_id actions;
  decision_number = decision.ordinal;
  eligible_count = decision.eligible_count;
  kind = decision.selected;
}

-- `u32::try_from(actions.len() + 1)`
abbrev pub fits_u32 : ℕ → Bool
fits_u32 n = ltb n (2 ^ 32)

-- The variables of the loop.
pub record PlanLoop (R : Type 0) : Type 0 where
  pub state : ModelState
  pub engine : DecisionEngine R
  pub cache : Cache
  pub actions : List PlannedAction

module _ {R : Type 0} (source : RandomSource R) (spec : PlanSpec) where
  -- What follows the choice in the body of the loop.
  abbrev pub record_choice :
      PlanLoop R
      → Cache
      → Result NoEligibleActions (Decision PlanActionKind) × DecisionEngine R
      → Result PlanCompileError (PlanLoop R)
  record_choice loop cache (err _, engine) = err no_eligible_action
  record_choice loop cache (ok decision, engine) = do
    state ← ok_or (apply_action loop.state decision.selected) no_eligible_action
    reject_if (not (fits_u32 (length loop.actions + 1))) no_eligible_action
    ok (record {
      state = state;
      engine = engine;
      cache = cache;
      actions = loop.actions ++ planned_action loop.actions decision ∷ [];
    })

  unfoldable pub plan_step : PlanLoop R → Result PlanCompileError (PlanLoop R)
  plan_step loop =
      let remaining = spec.max_actions.value - length loop.actions in
      let (eligible, cache) =
        affordable spec remaining loop.state (eligible_actions loop.state spec) loop.cache in
      record_choice loop cache (choose source action_order loop.engine eligible)

  unfoldable pub plan_loop : ℕ → PlanLoop R → Result PlanCompileError (PlanLoop R)
  plan_loop zero loop = err no_eligible_action
  plan_loop (suc fuel) loop = elim (is_complete loop.state) [
    | true ↦ ok loop
    | false ↦ elim (plan_step loop) [ err error ↦ err error | ok next ↦ plan_loop fuel next ]
  ]

  abbrev pub initial_loop : ModelState → Cache → PlanLoop R
  initial_loop state cache = record {
    state = state;
    engine = new_engine source action_order spec.seed;
    cache = cache;
    actions = [];
  }

  unfoldable pub compile_with_scheduler : String → Result PlanCompileError PlannedCase
  compile_with_scheduler scheduler = do
    map_err invalid_spec (validate_spec spec)
    let initial = for_scheduler scheduler
    let searched = minimum_actions_to_complete search_fuel spec initial empty_cache
    minimum ← ok_or searched.0 no_eligible_action
    reject_if (ltb spec.max_actions.value minimum)
        (budget_cannot_reach_checkpoint spec.max_actions.value)
    loop ← plan_loop (suc spec.max_actions.value) (initial_loop initial searched.1)
    ok (record {
      schema_version = plan_schema_version;
      scheduler_algorithm = scheduler;
      spec = spec;
      decision_count = length loop.actions;
      actions = loop.actions;
    })

  -- `CasePlanCompiler::compile`
  unfoldable pub compile : Result PlanCompileError PlannedCase
  unfolding compile_with_scheduler
  compile = compile_with_scheduler scheduler_algorithm
