-- ===== src/Shrink/Rank.antt =====
-- crates/tiv-core/src/shrink.rs: the order of `ShrinkComplexity` has no endless descent.
use tx_proof.Common.{ℕ, ◌+◌, ◌*◌, ◌^◌, ◌≤◌, ◌<◌, ◌≡◌, arith, true, List, [], ◌∷◌}
use tx_proof.Plan.Types.{PlanActionKind}
use tx_proof.Shrink.Complexity.{
  ShrinkComplexity, is_simpler, u32_max, u64_max, count_action, count_actions, complexity,
}

-- The fields as the digits of one number.
abbrev pub rank : ShrinkComplexity → ℕ
rank c =
    (((c.action_count * 2 ^ 32 + c.fault_action_count) * 2 ^ 32 + c.provider_fault_score) * 2 ^ 32
        + c.provider_call_count)
      * 2 ^ 64
    + c.delay_milliseconds

-- The fields are within the machine words.
record FitsWords (c : ShrinkComplexity) : Type 0 where
  faults : c.fault_action_count ≤ u32_max
  score : c.provider_fault_score ≤ u32_max
  calls : c.provider_call_count ≤ u32_max
  delay : c.delay_milliseconds ≤ u64_max

count_action-FitsWords :
    (c : ShrinkComplexity) (action : PlanActionKind)
    → FitsWords c
    → FitsWords (count_action c action)
count_action-FitsWords c action h = ground arith

count_actions-FitsWords :
    (actions : List PlanActionKind) (c : ShrinkComplexity)
    → FitsWords c
    → FitsWords (count_actions c actions)
count_actions-FitsWords [] c h = h
count_actions-FitsWords (action ∷ actions) c h =
    count_actions-FitsWords actions (count_action c action) (count_action-FitsWords c action h)

complexity-FitsWords : (actions : List PlanActionKind) → FitsWords (complexity actions)
unfolding complexity
complexity-FitsWords actions =
    count_actions-FitsWords actions _ (record {
      faults = omega arith;
      score = omega arith;
      calls = omega arith;
      delay = omega arith;
    })

simpler-rank : (a b : ShrinkComplexity) → FitsWords a → is_simpler a b ≡ true → rank a < rank b
simpler-rank a b h s = ground arith

-- A schedule that counts as simpler has a smaller rank.
pub complexity-rank :
    (actions : List PlanActionKind) (c : ShrinkComplexity)
    → is_simpler (complexity actions) c ≡ true
    → rank (complexity actions) < rank c
complexity-rank actions c s = simpler-rank (complexity actions) c (complexity-FitsWords actions) s
