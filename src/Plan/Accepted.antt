-- ===== src/Plan/Accepted.antt =====
-- crates/tiv-core/src/plan.rs: campaigns compile, and what was compiled is accepted.
use tx_proof.Common.{
  ℕ, zero, suc, ◌+◌, ◌≤◌, ◌≡◌, refl, sym, ap, subst, arith, some, List, [], ◌∷◌, length, String, ok,
  Bool-cases, inl, inr,
}
use tx_proof.Decision.{RandomSource}
use tx_proof.Plan.Limits.{
  CaseId, max_actions_per_case, campaign_schema_version, case_seed_derivation as seed_derivation,
}
use tx_proof.Plan.Spec.{PlanSpec, validate_spec}
use tx_proof.Plan.Compiler.{PlannedCase, compile_with_scheduler}
use tx_proof.Plan.Artifact.{compile_header}
use tx_proof.Plan.Compiled.{compile-ok_iff}
use tx_proof.Plan.Feasible.{IsValid, standard_history, standard_history-Completes}
use tx_proof.Plan.Campaign.{
  CampaignSpec, CampaignCase, CampaignPlan, case_spec, validate_campaign_spec, derive_case_seed,
  compile_case, compile_cases, compile_campaign, first_scheduler, validate_campaign,
}
use tx_proof.Plan.Campaigned.{validate_campaign_iff, compile_campaign-cases, AreCasesFrom}

standard_history-length : (spec : PlanSpec) → length (standard_history spec) ≤ 8
standard_history-length spec = elim (Bool-cases spec.webhook_faults.allow_stale_event) [
  | inl stale ↦ rw stale (omega arith)
  | inr plain ↦ rw plain (omega arith)
]

-- What a campaign needs for each of its cases to compile
pub record IsValidCampaign (spec : CampaignSpec) : Type 0 where
  pub accepted : validate_campaign_spec spec ≡ ok tt
  pub enough : 8 ≤ spec.max_actions.value
  pub budget : spec.max_actions.value ≤ max_actions_per_case

case_spec-IsValid :
    (spec : CampaignSpec) → IsValidCampaign spec → (seed : ℕ) → IsValid (case_spec spec seed)
unfolding validate_spec
case_spec-IsValid spec valid seed = record { accepted = valid.accepted; budget = valid.budget }

module _ {R : Type 0} (source : RandomSource R) (derive_key : String → List ℕ → List ℕ)
    (spec : CampaignSpec) (valid : IsValidCampaign spec) (scheduler : String) where
  case-compiles :
      (seed : ℕ)
      → (planned : PlannedCase) × (compile_with_scheduler source (case_spec spec seed) scheduler
          ≡ ok planned)
  case-compiles seed =
      let case = case_spec spec seed in
      let case_valid = case_spec-IsValid spec valid seed in
      let enough = valid.enough in
      let fits = standard_history-length case in
      (compile-ok_iff source case case_valid scheduler).1 (
        standard_history case,
        standard_history-Completes case scheduler case_valid.accepted,
        omega (arith, enough, fits),
      )

  compile_cases-total :
      (left value : ℕ)
      → (cases : List CampaignCase) × (compile_cases source derive_key spec scheduler left value
          ≡ ok cases)
  unfolding compile_cases compile_case
  compile_cases-total zero value = ([], refl)
  compile_cases-total (suc left) value =
      let case_id : CaseId = record { value = value } in
      let (plan, compiled) =
        case-compiles (derive_case_seed source derive_key spec.campaign_seed case_id) in
      let (rest, followed) = compile_cases-total left (value + 1) in
      (record { case_id = case_id; plan = plan } ∷ rest, rw (compiled, followed) refl)

  -- A campaign whose capabilities are valid and whose budget is from 8 to the limit compiles, for
  -- every seed and count.
  pub compile_campaign-total :
      (campaign : CampaignPlan) × (compile_campaign source derive_key spec scheduler ≡ ok campaign)
  unfolding compile_campaign
  compile_campaign-total =
      let (cases, compiled) = compile_cases-total spec.case_count.value 1 in
      (
        record {
          schema_version = campaign_schema_version;
          case_seed_derivation = seed_derivation;
          spec = spec;
          cases = cases;
        },
        rw (valid.accepted, compiled) refl,
      )

module _ {R : Type 0} (source : RandomSource R) (derive_key : String → List ℕ → List ℕ) where
  AreCasesFrom-first :
      (spec : CampaignSpec) (scheduler : String) (value : ℕ) (cases : List CampaignCase)
      → 1 ≤ length cases
      → AreCasesFrom source derive_key spec scheduler value cases
      → first_scheduler cases ≡ some scheduler
  AreCasesFrom-first spec scheduler value [] h c = absurd (omega arith)
  AreCasesFrom-first spec scheduler value (first ∷ rest) h ((same, compiled), others) =
      ap some
        (compile_header source
          (case_spec spec (derive_case_seed source derive_key spec.campaign_seed first.case_id))
          scheduler first.plan compiled).1

  -- A compiled campaign that has a case is accepted when it is read back.
  pub compile_campaign-validates :
      (spec : CampaignSpec) (scheduler : String) (campaign : CampaignPlan)
      → 1 ≤ spec.case_count.value
      → compile_campaign source derive_key spec scheduler ≡ ok campaign
      → validate_campaign source derive_key campaign ≡ ok tt
  compile_campaign-validates spec scheduler campaign counted compiled =
      let (same, cases, count) =
        compile_campaign-cases source derive_key spec scheduler campaign compiled in
      let some_case : 1 ≤ length campaign.cases = omega (arith, counted, count) in
      (validate_campaign_iff source derive_key campaign).1 (
        scheduler,
        AreCasesFrom-first spec scheduler 1 campaign.cases some_case cases,
        subst (λ s. compile_campaign source derive_key s scheduler ≡ ok campaign) (sym same)
            compiled,
      )
