-- ===== src/Shrink/Simplifications.antt =====
-- crates/tiv-core/src/shrink.rs: `kind_is_simplification` orders the actions.
use tx_proof.Common.{ℕ, ◌≤◌, ◌≡◌, ◌↔◌, sym, subst, arith, true, Option, none, some}
use tx_proof.Plan.Types.{
  ProviderOutcome, normal, ProviderOutcomeScript, single, PlanActionKind, drive_checkout,
  retry_business_request, confirm_payment_intent, retry_provider_request, deliver_webhook,
  delay_webhook, drop_webhook, action_discrete, script_discrete, outcome_discrete,
}
use tx_proof.Shrink.Lineage.{
  keeps_first, provider_script_is_simplification, kind_may_become, kind_is_simplification,
}

script_is_simplification_trans :
    (a b c : ProviderOutcomeScript)
    → provider_script_is_simplification a b ≡ true
    → provider_script_is_simplification b c ≡ true
    → provider_script_is_simplification a c ≡ true
unfolding provider_script_is_simplification
script_is_simplification_trans a b c p q = ground arith

script_is_simplification_antisymm :
    (a b : ProviderOutcomeScript)
    → provider_script_is_simplification a b ≡ true
    → provider_script_is_simplification b a ≡ true
    → a ≡ b
unfolding provider_script_is_simplification
script_is_simplification_antisymm a b p q = ground arith

kind_is_simplification_refl : (a : PlanActionKind) → kind_is_simplification a a ≡ true
unfolding kind_is_simplification
kind_is_simplification_refl a = ground arith

kind_is_simplification_trans :
    (a b c : PlanActionKind)
    → kind_is_simplification a b ≡ true
    → kind_is_simplification b c ≡ true
    → kind_is_simplification a c ≡ true
unfolding kind_is_simplification
kind_is_simplification_trans a b c p q = grind (arith, script_is_simplification_trans)

kind_is_simplification_antisymm :
    (a b : PlanActionKind)
    → kind_is_simplification a b ≡ true
    → kind_is_simplification b a ≡ true
    → a ≡ b
unfolding kind_is_simplification
kind_is_simplification_antisymm a b p q = grind (arith, script_is_simplification_antisymm)

-- A script is no worse than another one if it is the same, if it is one normal call, or if it keeps the
-- first of two outcomes, alone or before a normal call.
pub data NoWorse : ProviderOutcomeScript → ProviderOutcomeScript → Type 0 where
  same_script : {script : ProviderOutcomeScript} → NoWorse script script
  all_normal :
      {source : ProviderOutcomeScript} → NoWorse source (record { first = normal; retry = none })
  first_alone :
      {first retry : ProviderOutcome}
      → NoWorse
          (record { first = first; retry = some retry })
          (record { first = first; retry = none })
  first_then_normal :
      {first retry : ProviderOutcome}
      → NoWorse
          (record { first = first; retry = some retry })
          (record { first = first; retry = some normal })

-- What may stand for an action: the action itself, a delay that is no longer, a delivery for a drop, or
-- the same call with a script that is no worse.
pub data MayStandFor : PlanActionKind → PlanActionKind → Type 0 where
  same_action : {kind : PlanActionKind} → MayStandFor kind kind
  no_longer :
      {source candidate : ℕ}
      → candidate ≤ source
      → MayStandFor (delay_webhook source) (delay_webhook candidate)
  delivered : MayStandFor drop_webhook deliver_webhook
  better_checkout :
      {a b : ProviderOutcomeScript}
      → NoWorse a b
      → MayStandFor (drive_checkout a) (drive_checkout b)
  better_business_retry :
      {a b : ProviderOutcomeScript}
      → NoWorse a b
      → MayStandFor (retry_business_request a) (retry_business_request b)
  better_confirm :
      {a b : ProviderOutcomeScript}
      → NoWorse a b
      → MayStandFor (confirm_payment_intent a) (confirm_payment_intent b)
  better_provider_retry :
      {a b : ProviderOutcomeScript}
      → NoWorse a b
      → MayStandFor (retry_provider_request a) (retry_provider_request b)

keeps_first-NoWorse :
    (f : ProviderOutcome) (r : Option ProviderOutcome) (g : ProviderOutcome)
    (q : Option ProviderOutcome)
    → keeps_first (record { first = f; retry = r }) (record { first = g; retry = q }) ≡ true
    → NoWorse (record { first = f; retry = r }) (record { first = g; retry = q })
keeps_first-NoWorse f none g q h = cc
keeps_first-NoWorse f (some r) g none h = elim (outcome_discrete g f) [
  | yes e ↦
      subst
        (λ x. NoWorse (record { first = f; retry = some r }) (record { first = x; retry = none }))
        (sym e) first_alone
  | no n ↦ absurd (ground arith)
]
keeps_first-NoWorse f (some r) g (some q) h = elim (outcome_discrete g f) [
  | yes e ↦ elim (outcome_discrete q normal) [
    | yes e' ↦
        subst
          (λ x.
            NoWorse (record { first = f; retry = some r }) (record { first = x; retry = some q }))
          (sym e)
          (subst
            (λ x.
              NoWorse (record { first = f; retry = some r }) (record { first = f; retry = some x }))
            (sym e') first_then_normal)
    | no n ↦ absurd (ground arith)
  ]
  | no n ↦ absurd (ground arith)
]

script-NoWorse :
    (a b : ProviderOutcomeScript) → provider_script_is_simplification a b ≡ true → NoWorse a b
unfolding provider_script_is_simplification
script-NoWorse a b h = elim (script_discrete a b) [
  | yes e ↦ subst (NoWorse a) e same_script
  | no n ↦ elim (script_discrete b (single normal)) [
    | yes e ↦ subst (NoWorse a) (sym e) all_normal
    | no m ↦ keeps_first-NoWorse a.first a.retry b.first b.retry (ground arith)
  ]
]

NoWorse-script :
    (a b : ProviderOutcomeScript) → NoWorse a b → provider_script_is_simplification a b ≡ true
unfolding provider_script_is_simplification
NoWorse-script a _ same_script = ground arith
NoWorse-script a _ all_normal = ground arith
NoWorse-script _ _ first_alone = ground arith
NoWorse-script _ _ first_then_normal = ground arith

may_become-MayStandFor : (a b : PlanActionKind) → kind_may_become a b ≡ true → MayStandFor a b
may_become-MayStandFor (delay_webhook source) (delay_webhook candidate) h = no_longer (ground arith)
may_become-MayStandFor drop_webhook deliver_webhook h = delivered
may_become-MayStandFor (drive_checkout a) (drive_checkout b) h =
    better_checkout (script-NoWorse a b h)
may_become-MayStandFor (retry_business_request a) (retry_business_request b) h =
    better_business_retry (script-NoWorse a b h)
may_become-MayStandFor (confirm_payment_intent a) (confirm_payment_intent b) h =
    better_confirm (script-NoWorse a b h)
may_become-MayStandFor (retry_provider_request a) (retry_provider_request b) h =
    better_provider_retry (script-NoWorse a b h)
may_become-MayStandFor _ _ h = cc

kind-MayStandFor : (a b : PlanActionKind) → kind_is_simplification a b ≡ true → MayStandFor a b
unfolding kind_is_simplification
kind-MayStandFor a b h = elim (action_discrete a b) [
  | yes e ↦ subst (MayStandFor a) e same_action
  | no n ↦ may_become-MayStandFor a b (ground arith)
]

MayStandFor-kind : (a b : PlanActionKind) → MayStandFor a b → kind_is_simplification a b ≡ true
unfolding kind_is_simplification
MayStandFor-kind a _ same_action = kind_is_simplification_refl a
MayStandFor-kind _ _ (no_longer h) = ground arith
MayStandFor-kind _ _ delivered = ground arith
MayStandFor-kind _ _ (better_checkout {a} {b} h) = let s = NoWorse-script a b h in ground arith
MayStandFor-kind _ _ (better_business_retry {a} {b} h) =
    let s = NoWorse-script a b h in ground arith
MayStandFor-kind _ _ (better_confirm {a} {b} h) = let s = NoWorse-script a b h in ground arith
MayStandFor-kind _ _ (better_provider_retry {a} {b} h) =
    let s = NoWorse-script a b h in ground arith

-- An action passes the test for another one exactly if it may stand for it: it is the same, a delay
-- that is no longer, a delivery for a drop, or the same call with a script that is the same, one normal
-- call, or the first of two outcomes alone or before a normal call. What may stand for one another so
-- is a partial order of the actions.
pub kind_is_simplification_iff :
    ((a b : PlanActionKind) → (kind_is_simplification a b ≡ true) ↔ MayStandFor a b)
    × ((a b c : PlanActionKind) → MayStandFor a b → MayStandFor b c → MayStandFor a c)
    × ((a b : PlanActionKind) → MayStandFor a b → MayStandFor b a → a ≡ b)
kind_is_simplification_iff = (
  λ a b. (kind-MayStandFor a b, MayStandFor-kind a b),
  λ a b c p q.
      kind-MayStandFor a c
        (kind_is_simplification_trans a b c (MayStandFor-kind a b p) (MayStandFor-kind b c q)),
  λ a b p q. kind_is_simplification_antisymm a b (MayStandFor-kind a b p) (MayStandFor-kind b a q),
)
