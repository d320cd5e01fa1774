-- ===== src/Shrink/Lineage.antt =====
-- crates/tiv-core/src/shrink.rs: the errors, the schedules of a candidate, and which actions may
-- stand for which of the source.
use tx_proof.Common.{
  ℕ, Bool, true, false, not, ◌&&◌, ◌||◌, holds, Option, none, some, List, [], ◌∷◌, Result, ok,
  ◌>>=◌, ◌>>◌, reject_if, ok_or, find?, leb, ◌==◌,
}
use tx_proof.Plan.Types.{
  ProviderOutcome, normal, ProviderOutcomeScript, single, outcome_discrete, script_discrete,
  PlanActionKind, drive_checkout, retry_business_request, confirm_payment_intent,
  retry_provider_request, deliver_webhook, delay_webhook, drop_webhook, action_discrete,
}
use tx_proof.Plan.Spec.{PlanValidationError}
use tx_proof.Plan.Compiler.{PlannedAction, PlannedCase}

pub data ShrinkError : Type 0 where
  unsupported_schema_version unsupported_algorithm : ShrinkError
  invalid_source : PlanValidationError → ShrinkError
  source_is_not_seeded source_mismatch invalid_lineage : ShrinkError
  invalid_schedule : PlanValidationError → ShrinkError
  invalid_reference_cut_point does_not_simplify_source invalid_materialization action_limit :
      ShrinkError

pub record ShrinkAction : Type 0 where
  pub source_action_id : ℕ
  pub kind : PlanActionKind

abbrev pub is_normal : ProviderOutcome → Bool
is_normal outcome = holds (outcome_discrete outcome normal)

-- The last test of `provider_script_is_simplification`: of two outcomes the first one is kept, alone
-- or before a call that goes well.
abbrev pub keeps_first : ProviderOutcomeScript → ProviderOutcomeScript → Bool
keeps_first source candidate = elim source.retry [
  | none ↦ false
  | some _ ↦ elim candidate.retry [
    | none ↦ holds (outcome_discrete candidate.first source.first)
    | some retry ↦ holds (outcome_discrete candidate.first source.first) && is_normal retry
  ]
]

unfoldable pub provider_script_is_simplification :
    ProviderOutcomeScript → ProviderOutcomeScript → Bool
provider_script_is_simplification source candidate =
    holds (script_discrete source candidate)
    || (holds (script_discrete candidate (single normal)) || keeps_first source candidate)

abbrev pub kind_may_become : PlanActionKind → PlanActionKind → Bool
kind_may_become (delay_webhook source) (delay_webhook candidate) = leb candidate source
kind_may_become drop_webhook deliver_webhook = true
kind_may_become (drive_checkout source) (drive_checkout candidate) =
    provider_script_is_simplification source candidate
kind_may_become (retry_business_request source) (retry_business_request candidate) =
    provider_script_is_simplification source candidate
kind_may_become (confirm_payment_intent source) (confirm_payment_intent candidate) =
    provider_script_is_simplification source candidate
kind_may_become (retry_provider_request source) (retry_provider_request candidate) =
    provider_script_is_simplification source candidate
kind_may_become _ _ = false

unfoldable pub kind_is_simplification : PlanActionKind → PlanActionKind → Bool
kind_is_simplification source candidate =
    holds (action_discrete source candidate) || kind_may_become source candidate

-- `previous.is_some_and(|id| entry.source_action_id <= id)`
abbrev pub is_not_after : Option ℕ → ℕ → Bool
is_not_after none id = false
is_not_after (some previous) id = leb id previous

-- The loop of `validate_lineage`, with the variable `previous`.
unfoldable pub lineage_from :
    List PlannedAction → Option ℕ → List ShrinkAction → Result ShrinkError Unit
lineage_from actions previous [] = ok tt
lineage_from actions previous (entry ∷ schedule) = do
  reject_if (is_not_after previous entry.source_action_id) invalid_lineage
  original ← ok_or (find? (λ action. action.id == entry.source_action_id) actions) invalid_lineage
  reject_if (not (kind_is_simplification original.kind entry.kind)) invalid_lineage
  lineage_from actions (some entry.source_action_id) schedule

unfoldable pub validate_lineage : PlannedCase → List ShrinkAction → Result ShrinkError Unit
validate_lineage source schedule = lineage_from source.actions none schedule
