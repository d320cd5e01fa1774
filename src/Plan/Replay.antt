-- ===== src/Plan/Replay.antt =====
-- crates/tiv-core/src/plan.rs: a schedule without its decisions is checked, or cut down to what can
-- be replayed, by running the lifecycle over it.
use tx_proof.Common.{
  ℕ, ◌+◌, Bool, true, false, Option, none, some, List, [], ◌∷◌, length, String, Result, ok, err,
  ◌>>=◌, ◌>>◌, reject_if, ok_or, contains, ltb, if◌then◌else◌,
}
use tx_proof.Plan.Types.{PlanActionKind, action_discrete}
use tx_proof.Plan.Limits.{max_actions_per_case}
use tx_proof.Plan.Spec.{
  PlanSpec, PlanValidationError, validate_spec, capability_outside_v1_bounds, plan_is_not_feasible,
}
use tx_proof.Plan.Model.{ModelState, is_complete, for_scheduler}
use tx_proof.Plan.Eligible.{eligible_actions}
use tx_proof.Plan.Apply.{apply_action}

abbrev pub retain : ℕ → Option (List ℕ) → Option (List ℕ)
retain index none = none
retain index (some retained) = some (index ∷ retained)

module _ (spec : PlanSpec) where
  abbrev pub is_eligible : ModelState → PlanActionKind → Bool
  is_eligible state action = contains action_discrete (eligible_actions state spec) action

  -- The loop of `validate_replay_action_kinds`, with the test after it. The counts are those of the
  -- states in which the actions were taken.
  unfoldable pub replay_counts :
      ModelState → List PlanActionKind → Result PlanValidationError (List ℕ)
  replay_counts state [] = if is_complete state then ok [] else err plan_is_not_feasible
  replay_counts state (action ∷ actions) =
      if is_eligible state action
      then (do
        next ← ok_or (apply_action state action) plan_is_not_feasible
        counts ← replay_counts next actions
        ok (length (eligible_actions state spec) ∷ counts))
      else err plan_is_not_feasible

  unfoldable pub validate_replay_action_kinds :
      List PlanActionKind → String → Result PlanValidationError (List ℕ)
  validate_replay_action_kinds actions scheduler = do
    validate_spec spec
    reject_if (ltb max_actions_per_case (length actions)) capability_outside_v1_bounds
    replay_counts (for_scheduler scheduler) actions

  -- The loop of `normalize_replay_action_kinds` from an index on, with the test after it: an action
  -- that is not eligible is passed over, the indices of the others are retained.
  unfoldable pub normalize_from : ℕ → ModelState → List PlanActionKind → Option (List ℕ)
  normalize_from index state [] = if is_complete state then some [] else none
  normalize_from index state (action ∷ actions) = elim (is_eligible state action) [
    | false ↦ normalize_from (index + 1) state actions
    | true ↦ elim (apply_action state action) [
      | none ↦ none
      | some next ↦ retain index (normalize_from (index + 1) next actions)
    ]
  ]

  unfoldable pub normalize_replay_action_kinds : List PlanActionKind → String → Option (List ℕ)
  normalize_replay_action_kinds actions scheduler = elim (validate_spec spec) [
    | err _ ↦ none
    | ok _ ↦ normalize_from 0 (for_scheduler scheduler) actions
  ]
