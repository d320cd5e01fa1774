-- ===== src/Plan/Defaults.antt =====
-- crates/tiv-core/src/plan.rs: the specifications of the first version of the provider contract.
use tx_proof.Common.{
  ℕ, ◌≤◌, refl, Bool, true, false, List, [], ◌∷◌, Result, ok, ◌>>=◌, ◌>>◌, string_discrete,
}
use tx_proof.Plan.Types.{
  ProviderOutcome, pre_execute_429, pre_execute_500, post_execute_500, commit_then_close,
  commit_then_delay, ProcessCutPoint, client_request_forwarded, client_response_observed,
  webhook_request_forwarded, webhook_response_observed, sql_probe, payment_intent_v1,
  outcome_discrete, adapter_discrete,
}
use tx_proof.Plan.Limits.{
  ActionBudget, CaseCount, max_actions_per_case, payment_intent_v1_api_version,
}
use tx_proof.Plan.Spec.{
  PlanValidationError, WebhookFaultSpec, ProcessFaultSpec, PlanSpec, validate_webhook_faults,
  validate_process_faults, validate_spec,
}
use tx_proof.Plan.Campaign.{CampaignSpec, from_case_spec}
use tx_proof.Plan.Feasible.{IsValid}

-- `delays_millis` is the set that `collect` makes, in ascending order; so the sets below.
unfoldable new_webhook_faults :
    ℕ → List ℕ → Bool → Bool → Result PlanValidationError WebhookFaultSpec
new_webhook_faults duplicate_max delays_millis allow_reorder allow_drop =
    let spec : WebhookFaultSpec = record {
      duplicate_max = duplicate_max;
      delays_millis = delays_millis;
      allow_reorder = allow_reorder;
      allow_drop = allow_drop;
      allow_stale_event = false;
    } in
    validate_webhook_faults spec >> ok spec

abbrev pub with_stale_event : WebhookFaultSpec → Bool → WebhookFaultSpec
with_stale_event spec allow_stale_event = record spec { allow_stale_event = allow_stale_event }

unfoldable new_process_faults :
    List ProcessCutPoint → ℕ → Result PlanValidationError ProcessFaultSpec
new_process_faults cut_points max_kills =
    let spec : ProcessFaultSpec = record { cut_points = cut_points; max_kills = max_kills } in
    validate_process_faults spec >> ok spec

abbrev pub v1_case : ℕ → ActionBudget → PlanSpec
v1_case seed max_actions = record {
  seed = seed;
  max_actions = max_actions;
  provider_adapter = payment_intent_v1;
  provider_api_version = payment_intent_v1_api_version;
  provider_outcomes =
      ProviderOutcome.normal ∷ pre_execute_429 ∷ pre_execute_500 ∷ post_execute_500
      ∷ commit_then_close ∷ commit_then_delay ∷ [];
  webhook_faults = record {
    duplicate_max = 3;
    delays_millis = 0 ∷ 10 ∷ 100 ∷ 1000 ∷ 5000 ∷ [];
    allow_reorder = true;
    allow_drop = true;
    allow_stale_event = false;
  };
  process_faults = record {
    cut_points =
        client_request_forwarded ∷ client_response_observed ∷ webhook_request_forwarded
        ∷ webhook_response_observed ∷ sql_probe ∷ [];
    max_kills = 1;
  };
}

abbrev pub new_v1_case :
    ℕ
    → ActionBudget
    → List ProviderOutcome
    → WebhookFaultSpec
    → ProcessFaultSpec
    → Result PlanValidationError PlanSpec
new_v1_case seed max_actions provider_outcomes webhook_faults process_faults =
    let spec : PlanSpec = record {
      seed = seed;
      max_actions = max_actions;
      provider_adapter = payment_intent_v1;
      provider_api_version = payment_intent_v1_api_version;
      provider_outcomes = provider_outcomes;
      webhook_faults = webhook_faults;
      process_faults = process_faults;
    } in
    validate_spec spec >> ok spec

abbrev pub v1_campaign : ℕ → CaseCount → ActionBudget → CampaignSpec
v1_campaign campaign_seed case_count max_actions =
    from_case_spec campaign_seed case_count (v1_case campaign_seed max_actions)

abbrev pub new_v1_campaign :
    ℕ
    → CaseCount
    → ActionBudget
    → List ProviderOutcome
    → WebhookFaultSpec
    → ProcessFaultSpec
    → Result PlanValidationError CampaignSpec
new_v1_campaign campaign_seed case_count max_actions provider_outcomes webhook_faults
      process_faults =
    new_v1_case campaign_seed max_actions provider_outcomes webhook_faults process_faults
    >>= λ case. ok (from_case_spec campaign_seed case_count case)

-- The default specification is valid, with any budget that a case may have.
pub v1_case-IsValid :
    (seed : ℕ) (max_actions : ActionBudget)
    → max_actions.value ≤ max_actions_per_case
    → IsValid (v1_case seed max_actions)
unfolding validate_spec outcome_discrete adapter_discrete string_discrete validate_webhook_faults
    validate_process_faults
v1_case-IsValid seed max_actions h = record { accepted = refl; budget = h }
