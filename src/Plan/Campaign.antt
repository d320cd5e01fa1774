-- ===== src/Plan/Campaign.antt =====
-- crates/tiv-core/src/plan.rs: campaigns of cases whose seeds are derived from the campaign's. The
-- hash `blake3::derive_key` is a parameter: a context and the material, to the bytes of a digest.
use tx_proof.Common.{
  ℕ, zero, suc, ◌+◌, Option, none, some, not, List, [], ◌∷◌, ◌++◌, take, String, string_discrete,
  ℕ_discrete, Result, ok, to_le_bytes, from_le_bytes, ◌>>=◌, ◌>>◌, reject_if, map_err, ok_or, holds,
  ◌==◌,
}
use tx_proof.Decision.{RandomSource}
use tx_proof.Plan.Types.{
  ProviderOutcome, ProviderAdapter, outcome_discrete, cut_point_discrete, adapter_discrete,
}
use tx_proof.Plan.Limits.{
  ActionBudget, CaseCount, CaseId, campaign_schema_version, case_seed_derivation as seed_derivation,
}
use tx_proof.Plan.Spec.{
  PlanSpec, PlanValidationError, WebhookFaultSpec, ProcessFaultSpec, validate_spec,
}
use tx_proof.Plan.Compiler.{PlannedCase, PlanCompileError, compile_with_scheduler}
use tx_proof.Plan.Artifact.{planned_discrete}

pub record CampaignSpec : Type 0 where
  pub campaign_seed : ℕ
  pub case_count : CaseCount
  pub max_actions : ActionBudget
  pub provider_adapter : ProviderAdapter
  pub provider_api_version : String
  pub provider_outcomes : List ProviderOutcome
  pub webhook_faults : WebhookFaultSpec
  pub process_faults : ProcessFaultSpec

abbrev pub or_else {ℓ} : {A : Type ℓ} → Option A → A → A
or_else none a = a
or_else (some b) a = b

unfoldable pub with_run_overrides : CampaignSpec → Option ℕ → Option CaseCount → CampaignSpec
with_run_overrides spec campaign_seed case_count = record spec {
  campaign_seed = or_else campaign_seed spec.campaign_seed;
  case_count = or_else case_count spec.case_count;
}

abbrev pub from_case_spec : ℕ → CaseCount → PlanSpec → CampaignSpec
from_case_spec campaign_seed case_count case_spec = record {
  campaign_seed = campaign_seed;
  case_count = case_count;
  max_actions = case_spec.max_actions;
  provider_adapter = case_spec.provider_adapter;
  provider_api_version = case_spec.provider_api_version;
  provider_outcomes = case_spec.provider_outcomes;
  webhook_faults = case_spec.webhook_faults;
  process_faults = case_spec.process_faults;
}

abbrev pub case_spec : CampaignSpec → ℕ → PlanSpec
case_spec spec seed = record {
  seed = seed;
  max_actions = spec.max_actions;
  provider_adapter = spec.provider_adapter;
  provider_api_version = spec.provider_api_version;
  provider_outcomes = spec.provider_outcomes;
  webhook_faults = spec.webhook_faults;
  process_faults = spec.process_faults;
}

abbrev pub validate_campaign_spec : CampaignSpec → Result PlanValidationError Unit
validate_campaign_spec spec = validate_spec (case_spec spec spec.campaign_seed)

pub record CampaignCase : Type 0 where
  pub case_id : CaseId
  pub plan : PlannedCase

pub record CampaignPlan : Type 0 where
  pub schema_version : ℕ
  pub case_seed_derivation : String
  pub spec : CampaignSpec
  pub cases : List CampaignCase

pub data CampaignCompileError : Type 0 where
  invalid_spec : PlanValidationError → CampaignCompileError
  invalid_case : CaseId → PlanCompileError → CampaignCompileError

pub data CampaignValidationError : Type 0 where
  unsupported_schema_version unsupported_case_seed_derivation invalid_campaign_spec
        campaign_is_not_feasible campaign_does_not_match_spec :
      CampaignValidationError

unfoldable pub seed_material : ℕ → CaseId → List ℕ
unfolding to_le_bytes
seed_material campaign_seed case_id = to_le_bytes 8 campaign_seed ++ to_le_bytes 4 case_id.value

unfoldable pub campaign_discrete : Discrete CampaignPlan
unfolding ℕ_discrete string_discrete outcome_discrete cut_point_discrete adapter_discrete
    planned_discrete
campaign_discrete = hlevel (
  ℕ_discrete, string_discrete, outcome_discrete, cut_point_discrete, adapter_discrete,
  planned_discrete,
)

abbrev pub first_scheduler : List CampaignCase → Option String
first_scheduler [] = none
first_scheduler (first ∷ rest) = some first.plan.scheduler_algorithm

module _ {R : Type 0} (source : RandomSource R) (derive_key : String → List ℕ → List ℕ) where
  unfoldable pub derive_case_seed : ℕ → CaseId → ℕ
  unfolding from_le_bytes seed_material
  derive_case_seed campaign_seed case_id =
      from_le_bytes
        (take 8 (derive_key "dev.txproof.case-seed.v1" (seed_material campaign_seed case_id)))

  -- The body of the loop: one case
  unfoldable pub compile_case :
      CampaignSpec → String → CaseId → Result CampaignCompileError CampaignCase
  compile_case spec scheduler case_id =
      map_err (invalid_case case_id) (
        compile_with_scheduler source (case_spec spec (derive_case_seed spec.campaign_seed case_id))
          scheduler)
      >>= λ plan. ok (record { case_id = case_id; plan = plan })

  -- `for value in 1..=count`, with the values left and the next one
  unfoldable pub compile_cases :
      CampaignSpec → String → ℕ → ℕ → Result CampaignCompileError (List CampaignCase)
  compile_cases spec scheduler zero value = ok []
  compile_cases spec scheduler (suc left) value =
      compile_case spec scheduler (record { value = value }) >>= λ first.
      compile_cases spec scheduler left (value + 1) >>= λ rest. ok (first ∷ rest)

  unfoldable pub compile_campaign : CampaignSpec → String → Result CampaignCompileError CampaignPlan
  compile_campaign spec scheduler = do
    map_err CampaignCompileError.invalid_spec (validate_campaign_spec spec)
    cases ← compile_cases spec scheduler spec.case_count.value 1
    ok (record {
      schema_version = campaign_schema_version;
      case_seed_derivation = seed_derivation;
      spec = spec;
      cases = cases;
    })

  unfoldable pub validate_campaign : CampaignPlan → Result CampaignValidationError Unit
  validate_campaign campaign = do
    reject_if (not (campaign.schema_version == campaign_schema_version)) unsupported_schema_version
    reject_if (not (holds (string_discrete campaign.case_seed_derivation seed_derivation)))
        unsupported_case_seed_derivation
    map_err (λ _. invalid_campaign_spec) (validate_campaign_spec campaign.spec)
    scheduler ← ok_or (first_scheduler campaign.cases) campaign_does_not_match_spec
    expected ← map_err (λ _. campaign_is_not_feasible) (compile_campaign campaign.spec scheduler)
    reject_if (not (holds (campaign_discrete campaign expected))) campaign_does_not_match_spec
