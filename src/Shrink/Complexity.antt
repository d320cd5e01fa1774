-- ===== src/Shrink/Complexity.antt =====
-- crates/tiv-core/src/shrink.rs: `ShrinkComplexity`, its derived order, and how it is counted.
use Prim.Native.Nat.{compare, Ordering}
use Prim.Native.Nat.Ordering.{lt, eq, gt}
use tx_proof.Common.{
  ℕ, ◌+◌, ◌-◌, ◌^◌, min, Bool, true, false, List, [], ◌∷◌, length, ltb, if◌then◌else◌,
}
use tx_proof.Order.{and_then}
use tx_proof.Plan.Types.{
  ProviderOutcome, normal, pre_execute_429, pre_execute_500, post_execute_500, commit_then_close,
  commit_then_delay, ProviderOutcomeScript, outcomes, PlanActionKind, drive_checkout,
  retry_business_request, confirm_payment_intent, retry_provider_request, duplicate_webhook,
  reorder_webhooks, drop_webhook, kill_application, delay_webhook,
}

pub record ShrinkComplexity : Type 0 where
  pub action_count : ℕ
  pub fault_action_count : ℕ
  pub provider_fault_score : ℕ
  pub provider_call_count : ℕ
  pub delay_milliseconds : ℕ

-- The derived `Ord`: field by field in the order of the declaration.
abbrev pub compare_complexity : ShrinkComplexity → ShrinkComplexity → Ordering
compare_complexity a b = and_then (compare a.action_count b.action_count) (
    and_then (compare a.fault_action_count b.fault_action_count) (
      and_then (compare a.provider_fault_score b.provider_fault_score) (
        and_then (compare a.provider_call_count b.provider_call_count)
          (compare a.delay_milliseconds b.delay_milliseconds))))

abbrev pub is_lt : Ordering → Bool
is_lt lt = true
is_lt eq = false
is_lt gt = false

-- `a < b`; the code tests its negation `a >= b`.
abbrev pub is_simpler : ShrinkComplexity → ShrinkComplexity → Bool
is_simpler a b = is_lt (compare_complexity a b)

abbrev pub u32_max : ℕ
u32_max = 2 ^ 32 - 1

abbrev pub u64_max : ℕ
u64_max = 2 ^ 64 - 1

abbrev pub fault_score : ProviderOutcome → ℕ
fault_score normal = 0
fault_score pre_execute_429 = 1
fault_score pre_execute_500 = 1
fault_score post_execute_500 = 2
fault_score commit_then_close = 3
fault_score commit_then_delay = 3

abbrev pub total_score : List ProviderOutcome → ℕ
total_score [] = 0
total_score (outcome ∷ rest) = fault_score outcome + total_score rest

abbrev pub count_fault : ShrinkComplexity → ℕ → ShrinkComplexity
count_fault c delay = record {
  action_count = c.action_count;
  fault_action_count = min (c.fault_action_count + 1) u32_max;
  provider_fault_score = c.provider_fault_score;
  provider_call_count = c.provider_call_count;
  delay_milliseconds = min (c.delay_milliseconds + delay) u64_max;
}

-- The arm of the actions that call the provider: the calls are counted always, the fault only if
-- the script has a score.
abbrev pub count_script : ShrinkComplexity → ProviderOutcomeScript → ShrinkComplexity
count_script c script =
    let score = total_score (outcomes script) in
    let is_fault = ltb 0 score in
    record {
      action_count = c.action_count;
      fault_action_count =
          if is_fault then min (c.fault_action_count + 1) u32_max else c.fault_action_count;
      provider_fault_score =
          if is_fault then min (c.provider_fault_score + score) u32_max else c.provider_fault_score;
      provider_call_count =
          min (c.provider_call_count + min (length (outcomes script)) u32_max) u32_max;
      delay_milliseconds = c.delay_milliseconds;
    }

-- The body of the loop of `complexity`
abbrev pub count_action : ShrinkComplexity → PlanActionKind → ShrinkComplexity
count_action c (drive_checkout script) = count_script c script
count_action c (retry_business_request script) = count_script c script
count_action c (confirm_payment_intent script) = count_script c script
count_action c (retry_provider_request script) = count_script c script
count_action c duplicate_webhook = count_fault c 0
count_action c reorder_webhooks = count_fault c 0
count_action c drop_webhook = count_fault c 0
count_action c (kill_application _) = count_fault c 0
count_action c (delay_webhook milliseconds) = count_fault c milliseconds
count_action c _ = c

abbrev pub count_actions : ShrinkComplexity → List PlanActionKind → ShrinkComplexity
count_actions c [] = c
count_actions c (action ∷ actions) = count_actions (count_action c action) actions

unfoldable pub complexity : List PlanActionKind → ShrinkComplexity
complexity actions =
    count_actions
      (record {
        action_count = min (length actions) u32_max;
        fault_action_count = 0;
        provider_fault_score = 0;
        provider_call_count = 0;
        delay_milliseconds = 0;
      })
      actions
