-- ===== src/Plan/Limits.antt =====
-- crates/tiv-core/src/plan.rs: the bounded numbers of v1, and the constants.
use tx_proof.Common.{ℕ, String, Result, ok, err, ltb, ◌==◌, if◌then◌else◌}

abbrev pub plan_schema_version : ℕ
plan_schema_version = 3

abbrev pub campaign_schema_version : ℕ
campaign_schema_version = 3

abbrev pub max_actions_per_case : ℕ
max_actions_per_case = 40

abbrev pub max_cases : ℕ
max_cases = 500

abbrev pub payment_intent_v1_api_version : String
payment_intent_v1_api_version = "2026-02-25.clover"

abbrev pub case_seed_derivation : String
case_seed_derivation = "blake3/1.8.6/derive_key:dev.txproof.case-seed.v1/le-u64"

abbrev pub legacy_scheduler_algorithm : String
legacy_scheduler_algorithm = "rand/0.10.2/random_range+rand_chacha/0.10.0/ChaCha20Rng-seed_from_u64"

abbrev pub scheduler_algorithm : String
scheduler_algorithm =
    "rand/0.10.2/random_range+rand_chacha/0.10.0/ChaCha20Rng-seed_from_u64+reference-cutpoints/v1"

pub data InvalidActionBudget : Type 0 where
  zero_value above_v1_maximum : InvalidActionBudget

pub record ActionBudget : Type 0 where
  pub value : ℕ

unfoldable pub new_action_budget : ℕ → Result InvalidActionBudget ActionBudget
new_action_budget value =
    if value == 0
    then err InvalidActionBudget.zero_value
    else if ltb max_actions_per_case value
    then err InvalidActionBudget.above_v1_maximum
    else ok (record { value = value })

pub data InvalidCaseCount : Type 0 where
  zero_value above_v1_maximum : InvalidCaseCount

pub record CaseCount : Type 0 where
  pub value : ℕ

unfoldable pub new_case_count : ℕ → Result InvalidCaseCount CaseCount
new_case_count value =
    if value == 0
    then err InvalidCaseCount.zero_value
    else if ltb max_cases value
    then err InvalidCaseCount.above_v1_maximum
    else ok (record { value = value })

pub data InvalidCaseId : Type 0 where
  zero_value above_v1_maximum : InvalidCaseId

pub record CaseId : Type 0 where
  pub value : ℕ

unfoldable pub new_case_id : ℕ → Result InvalidCaseId CaseId
new_case_id value =
    if value == 0
    then err InvalidCaseId.zero_value
    else if ltb max_cases value
    then err InvalidCaseId.above_v1_maximum
    else ok (record { value = value })
