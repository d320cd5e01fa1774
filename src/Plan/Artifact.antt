-- ===== src/Plan/Artifact.antt =====
-- crates/tiv-core/src/plan.rs: `PlannedCase::validate`, which recompiles a recorded case and compares.
use tx_proof.Common.{
  ◌≡◌, arith, Bool, true, not, ◌||◌, String, string_discrete, ℕ_discrete, Result, ok, ◌>>=◌, ◌>>◌,
  reject_if, map_err, holds, ◌==◌, ◌↔◌,
}
use tx_proof.Decision.{RandomSource}
use tx_proof.Plan.Types.{outcome_discrete, cut_point_discrete, action_discrete, adapter_discrete}
use tx_proof.Plan.Limits.{plan_schema_version, scheduler_algorithm, legacy_scheduler_algorithm}
use tx_proof.Plan.Spec.{
  PlanSpec, PlanValidationError, validate_spec, unsupported_schema_version,
  unsupported_scheduler_algorithm, plan_is_not_feasible, plan_does_not_match_decision_stream,
}
use tx_proof.Plan.Compiler.{PlannedCase, compile_with_scheduler}

unfoldable pub planned_discrete : Discrete PlannedCase
unfolding ℕ_discrete string_discrete outcome_discrete cut_point_discrete action_discrete
    adapter_discrete
planned_discrete = hlevel (
  ℕ_discrete, string_discrete, outcome_discrete, cut_point_discrete, action_discrete,
  adapter_discrete,
)

abbrev pub scheduler_is_known : String → Bool
scheduler_is_known scheduler =
    holds (string_discrete scheduler scheduler_algorithm)
    || holds (string_discrete scheduler legacy_scheduler_algorithm)

module _ {R : Type 0} (source : RandomSource R) where
  unfoldable pub validate_planned : PlannedCase → Result PlanValidationError Unit
  validate_planned planned = do
    reject_if (not (planned.schema_version == plan_schema_version)) unsupported_schema_version
    reject_if (not (scheduler_is_known planned.scheduler_algorithm)) unsupported_scheduler_algorithm
    validate_spec planned.spec
    expected ←
        map_err (λ _. plan_is_not_feasible)
          (compile_with_scheduler source planned.spec planned.scheduler_algorithm)
    reject_if (not (holds (planned_discrete planned expected))) plan_does_not_match_decision_stream

  -- What a compiled case carries of its specification.
  pub compile_header :
      (spec : PlanSpec) (scheduler : String) (planned : PlannedCase)
      → compile_with_scheduler source spec scheduler ≡ ok planned
      → (planned.schema_version ≡ plan_schema_version)
        × (planned.scheduler_algorithm ≡ scheduler)
        × (planned.spec ≡ spec)
        × (validate_spec spec ≡ ok tt)
  unfolding compile_with_scheduler
  compile_header spec scheduler planned h = ground arith

  -- A recorded case is accepted exactly if its scheduler is known and the case is, to the last
  -- field, what the compiler makes of its specification.
  pub validate_planned_iff :
      (planned : PlannedCase)
      → (validate_planned planned ≡ ok tt) ↔ (
          (scheduler_is_known planned.scheduler_algorithm ≡ true)
          × (compile_with_scheduler source planned.spec planned.scheduler_algorithm ≡ ok planned))
  unfolding validate_planned
  validate_planned_iff planned = (
    λ h. ground arith,
    λ (known, compiled).
        let (version, _, _, valid) =
          compile_header planned.spec planned.scheduler_algorithm planned compiled in
        rw (valid, compiled) (ground arith),
  )
