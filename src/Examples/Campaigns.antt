-- ===== src/Examples/Campaigns.antt =====
-- Campaigns and attempts to reproduce at concrete inputs.
use tx_proof.Common.{ℕ, ◌≡◌, ◌↔◌, arith, some, length, String, ok}
use tx_proof.Plan.Limits.{CaseId, scheduler_algorithm}
use tx_proof.Plan.Spec.{validate_spec}
use tx_proof.Plan.Campaign.{CampaignPlan, compile_campaign, validate_campaign, first_scheduler}
use tx_proof.Plan.Campaigned.{AreCasesFrom, compile_campaign-cases, validate_campaign_iff}
use tx_proof.Plan.Accepted.{IsValidCampaign, compile_campaign-total, compile_campaign-validates}
use tx_proof.Reproduction.{
  FailureIdentity, held, violation, IsClass, classify_reproduction, classify-IsClass,
}
use tx_proof.Examples.{counting, small_accepted, small_campaign, derive_key}

small_campaign-IsValidCampaign : IsValidCampaign small_campaign
unfolding validate_spec
small_campaign-IsValidCampaign = record {
  accepted = small_accepted;
  enough = omega arith;
  budget = omega arith;
}

compile_campaign-total_example :
    (campaign : CampaignPlan) × (compile_campaign counting derive_key small_campaign
        scheduler_algorithm
      ≡ ok campaign)
compile_campaign-total_example =
    compile_campaign-total counting derive_key small_campaign small_campaign-IsValidCampaign
      scheduler_algorithm

compiled :
    (campaign : CampaignPlan) × (compile_campaign counting derive_key small_campaign
        scheduler_algorithm
      ≡ ok campaign)
compiled =
    compile_campaign-total counting derive_key small_campaign small_campaign-IsValidCampaign
      scheduler_algorithm

compile_campaign-cases_example :
    (compiled.0.spec ≡ small_campaign)
    × AreCasesFrom counting derive_key small_campaign scheduler_algorithm 1 compiled.0.cases
    × (length compiled.0.cases ≡ 2)
compile_campaign-cases_example =
    compile_campaign-cases counting derive_key small_campaign scheduler_algorithm compiled.0
      compiled.1

compile_campaign-validates_example : validate_campaign counting derive_key compiled.0 ≡ ok tt
compile_campaign-validates_example =
    compile_campaign-validates counting derive_key small_campaign scheduler_algorithm compiled.0
      (omega arith) compiled.1

validate_campaign_iff_example : (validate_campaign counting derive_key compiled.0 ≡ ok tt) ↔ (
    (scheduler : String) × (first_scheduler compiled.0.cases ≡ some scheduler)
    × (compile_campaign counting derive_key compiled.0.spec scheduler ≡ ok compiled.0))
validate_campaign_iff_example = validate_campaign_iff counting derive_key compiled.0

abbrev campaign_seed : ℕ
campaign_seed = 300

abbrev case_id : CaseId
case_id = record { value = 3 }

abbrev failure : FailureIdentity
failure = record {
  invariant = record { value = "charged-once" };
  checkpoint = record { value = "final" };
}

classify-IsClass_example :
    IsClass failure
      (violation failure)
      held
      (violation failure)
      (classify_reproduction failure (violation failure) held (violation failure))
classify-IsClass_example = classify-IsClass failure (violation failure) held (violation failure)
