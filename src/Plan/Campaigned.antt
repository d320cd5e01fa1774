-- ===== src/Plan/Campaigned.antt =====
-- crates/tiv-core/src/plan.rs: what compiling and validating a campaign promise.
use tx_proof.Common.{
  ℕ, zero, suc, ◌+◌, ◌≡◌, ◌↔◌, refl, sym, ap, subst, ◌∙◌, arith, inl, inr, some, List, [], ◌∷◌,
  length, String, ok, Result-cases,
}
use tx_proof.Decision.{RandomSource}
use tx_proof.Plan.Limits.{CaseId, campaign_schema_version, case_seed_derivation as seed_derivation}
use tx_proof.Plan.Compiler.{compile_with_scheduler}
use tx_proof.Plan.Campaign.{
  CampaignSpec, CampaignCase, CampaignPlan, case_spec, validate_campaign_spec, derive_case_seed,
  compile_case, compile_cases, compile_campaign, first_scheduler, validate_campaign,
}

module _ {R : Type 0} (source : RandomSource R) (derive_key : String → List ℕ → List ℕ)
    (spec : CampaignSpec) (scheduler : String) where
  -- A case with the plan that its derived seed compiles to
  abbrev pub IsCase : ℕ → CampaignCase → Type 0
  IsCase value this =
      (this.case_id.value ≡ value)
      × (compile_with_scheduler source
            (case_spec spec (derive_case_seed source derive_key spec.campaign_seed this.case_id))
            scheduler
          ≡ ok this.plan)

  abbrev pub AreCasesFrom : ℕ → List CampaignCase → Type 0
  AreCasesFrom value [] = Unit
  AreCasesFrom value (first ∷ rest) = IsCase value first × AreCasesFrom (value + 1) rest

  compile_case-IsCase :
      (case_id : CaseId) (this : CampaignCase)
      → compile_case source derive_key spec scheduler case_id ≡ ok this
      → IsCase case_id.value this
  unfolding compile_case
  compile_case-IsCase case_id this h =
      elim (Result-cases (
        compile_with_scheduler source
          (case_spec spec (derive_case_seed source derive_key spec.campaign_seed case_id))
          scheduler)) [
            | inl (plan, compiled) ↦
                let g = rw compiled at h in
                (let same : this ≡ record { case_id = case_id; plan = plan } = cc in
                  subst (IsCase case_id.value) (sym same) (refl, compiled))
            | inr (e, refused) ↦ cc (rw refused at h)
          ]

  compile_cases-AreCasesFrom :
      (left value : ℕ) (cases : List CampaignCase)
      → compile_cases source derive_key spec scheduler left value ≡ ok cases
      → AreCasesFrom value cases × (length cases ≡ left)
  unfolding compile_cases
  compile_cases-AreCasesFrom zero value [] h = (tt, refl)
  compile_cases-AreCasesFrom zero value (first ∷ rest) h = cc
  compile_cases-AreCasesFrom (suc left) value [] h = ground arith
  compile_cases-AreCasesFrom (suc left) value (first ∷ rest) h =
      let case_id : CaseId = record { value = value } in
      elim (Result-cases (compile_case source derive_key spec scheduler case_id)) [
        | inr (e, refused) ↦ cc (rw refused at h)
        | inl (this, compiled) ↦
            let g = rw compiled at h in
            (elim (Result-cases (compile_cases source derive_key spec scheduler left (value + 1))) [
              | inr (e, refused) ↦ cc (rw refused at g)
              | inl (others, followed) ↦
                  let f = rw followed at g in
                  (let same : this ≡ first = cc in
                    let also : others ≡ rest = cc in
                    let (cases, count) =
                      compile_cases-AreCasesFrom left (value + 1) rest (followed ∙ ap ok also) in
                    (
                      (compile_case-IsCase case_id first (compiled ∙ ap ok same), cases),
                      ap suc count,
                    ))
            ])
      ]

module _ {R : Type 0} (source : RandomSource R) (derive_key : String → List ℕ → List ℕ) where
  -- A compiled campaign carries its specification and has one case for each identifier from 1 to
  -- the count, in order, with the plan its own derived seed compiles to.
  pub compile_campaign-cases :
      (spec : CampaignSpec) (scheduler : String) (campaign : CampaignPlan)
      → compile_campaign source derive_key spec scheduler ≡ ok campaign
      → (campaign.spec ≡ spec)
        × AreCasesFrom source derive_key spec scheduler 1 campaign.cases
        × (length campaign.cases ≡ spec.case_count.value)
  unfolding compile_campaign
  compile_campaign-cases spec scheduler campaign h =
      elim (Result-cases (compile_cases source derive_key spec scheduler spec.case_count.value 1)) [
        | inl (cases, compiled) ↦
            (let same : campaign.cases ≡ cases = ground arith in
              let (each, count) =
                compile_cases-AreCasesFrom source derive_key spec scheduler spec.case_count.value 1
                  campaign.cases (compiled ∙ ap ok (sym same)) in
              (ground arith, each, count))
        | inr (e, refused) ↦ ground arith
      ]

  compile_campaign_header :
      (spec : CampaignSpec) (scheduler : String) (campaign : CampaignPlan)
      → compile_campaign source derive_key spec scheduler ≡ ok campaign
      → (campaign.schema_version ≡ campaign_schema_version)
        × (campaign.case_seed_derivation ≡ seed_derivation)
        × (campaign.spec ≡ spec)
        × (validate_campaign_spec spec ≡ ok tt)
  unfolding compile_campaign
  compile_campaign_header spec scheduler campaign h = ground arith

  -- A recorded campaign is accepted exactly if it has a case and is, to the last field, what its
  -- specification compiles to with the scheduler of its first case.
  pub validate_campaign_iff :
      (campaign : CampaignPlan)
      → (validate_campaign source derive_key campaign ≡ ok tt) ↔ (
          (scheduler : String) × (first_scheduler campaign.cases ≡ some scheduler)
          × (compile_campaign source derive_key campaign.spec scheduler ≡ ok campaign))
  unfolding validate_campaign
  validate_campaign_iff campaign = (
    λ h. ground arith,
    λ (scheduler, first, compiled).
        let (version, derivation, _, valid) =
          compile_campaign_header campaign.spec scheduler campaign compiled in
        rw (valid, first, compiled) (ground arith),
  )
