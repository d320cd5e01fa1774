-- ===== src/Plan/Spec.antt =====
-- crates/tiv-core/src/plan.rs: fault capabilities and plan specifications, with their validation.
-- A `BTreeSet` is the list of its elements in ascending order.
use tx_proof.Common.{
  ℕ, Bool, ◌&&◌, ◌||◌, not, List, String, string_discrete, Result, ◌>>◌, reject_if, holds, contains,
  any, ltb,
}
use tx_proof.Plan.Types.{
  ProviderOutcome, ProcessCutPoint, ProviderAdapter, payment_intent_v1, outcome_discrete,
  adapter_discrete,
}
use tx_proof.Plan.Limits.{ActionBudget, payment_intent_v1_api_version}

pub data PlanValidationError : Type 0 where
  unsupported_schema_version unsupported_scheduler_algorithm unsupported_provider_version
        missing_normal_provider_outcome capability_outside_v1_bounds plan_is_not_feasible
        plan_does_not_match_decision_stream :
      PlanValidationError

pub record WebhookFaultSpec : Type 0 where
  pub duplicate_max : ℕ
  pub delays_millis : List ℕ
  pub allow_reorder : Bool
  pub allow_drop : Bool
  pub allow_stale_event : Bool

unfoldable pub validate_webhook_faults : WebhookFaultSpec → Result PlanValidationError Unit
validate_webhook_faults spec =
    reject_if (ltb 3 spec.duplicate_max || any (λ delay. ltb 5000 delay) spec.delays_millis)
      capability_outside_v1_bounds

pub record ProcessFaultSpec : Type 0 where
  pub cut_points : List ProcessCutPoint
  pub max_kills : ℕ

unfoldable pub validate_process_faults : ProcessFaultSpec → Result PlanValidationError Unit
validate_process_faults spec = reject_if (ltb 1 spec.max_kills) capability_outside_v1_bounds

pub record PlanSpec : Type 0 where
  pub seed : ℕ
  pub max_actions : ActionBudget
  pub provider_adapter : ProviderAdapter
  pub provider_api_version : String
  pub provider_outcomes : List ProviderOutcome
  pub webhook_faults : WebhookFaultSpec
  pub process_faults : ProcessFaultSpec

unfoldable pub validate_spec : PlanSpec → Result PlanValidationError Unit
unfolding validate_webhook_faults validate_process_faults outcome_discrete adapter_discrete
    string_discrete
validate_spec spec = do
  reject_if
      (not (
        holds (adapter_discrete spec.provider_adapter payment_intent_v1)
        && holds (string_discrete spec.provider_api_version payment_intent_v1_api_version)))
      unsupported_provider_version
  reject_if (not (contains outcome_discrete spec.provider_outcomes ProviderOutcome.normal))
      missing_normal_provider_outcome
  validate_webhook_faults spec.webhook_faults
  validate_process_faults spec.process_faults
