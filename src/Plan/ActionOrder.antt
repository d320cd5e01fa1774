-- ===== src/Plan/ActionOrder.antt =====
-- crates/tiv-core/src/plan.rs: the derived `Ord` of `PlanActionKind`: the variants in the order of
-- their declaration, then their fields, `None` before `Some`.
use tx_proof.Common.{ℕ, suc, ◌≡◌, refl, ap, arith, Option, none, some}
use tx_proof.Order.{Key, Ord, by_key}
use tx_proof.Plan.Types.{
  ProviderOutcome, normal, pre_execute_429, pre_execute_500, post_execute_500, commit_then_close,
  commit_then_delay, ProviderOutcomeScript, ProcessCutPoint, client_request_forwarded,
  client_response_observed, webhook_request_forwarded, webhook_response_observed, sql_probe,
  PlanActionKind, drive_checkout, retrieve_payment_intent, release_provider_gate,
  retry_business_request, confirm_payment_intent, retry_provider_request, generate_provider_event,
  deliver_webhook, duplicate_webhook, delay_webhook, reorder_webhooks, drop_webhook,
  kill_application, restart_and_await_health, wait_for_quiescence, check_checkpoint, final,
}

abbrev outcome_rank : ProviderOutcome → ℕ
outcome_rank normal = 0
outcome_rank pre_execute_429 = 1
outcome_rank pre_execute_500 = 2
outcome_rank post_execute_500 = 3
outcome_rank commit_then_close = 4
outcome_rank commit_then_delay = 5

abbrev retry_rank : Option ProviderOutcome → ℕ
retry_rank none = 0
retry_rank (some outcome) = suc (outcome_rank outcome)

abbrev cut_point_rank : ProcessCutPoint → ℕ
cut_point_rank client_request_forwarded = 0
cut_point_rank client_response_observed = 1
cut_point_rank webhook_request_forwarded = 2
cut_point_rank webhook_response_observed = 3
cut_point_rank sql_probe = 4

abbrev pub script_key : ℕ → ProviderOutcomeScript → Key
script_key variant script = (variant, outcome_rank script.first, retry_rank script.retry)

abbrev pub action_key : PlanActionKind → Key
action_key (drive_checkout script) = script_key 0 script
action_key retrieve_payment_intent = (1, 0, 0)
action_key release_provider_gate = (2, 0, 0)
action_key (retry_business_request script) = script_key 3 script
action_key (confirm_payment_intent script) = script_key 4 script
action_key (retry_provider_request script) = script_key 5 script
action_key generate_provider_event = (6, 0, 0)
action_key deliver_webhook = (7, 0, 0)
action_key duplicate_webhook = (8, 0, 0)
action_key (delay_webhook milliseconds) = (9, milliseconds, 0)
action_key reorder_webhooks = (10, 0, 0)
action_key drop_webhook = (11, 0, 0)
action_key (kill_application cut_point) = (12, cut_point_rank cut_point, 0)
action_key restart_and_await_health = (13, 0, 0)
action_key wait_for_quiescence = (14, 0, 0)
action_key (check_checkpoint _) = (15, 0, 0)

outcome_distinct : (a b : ProviderOutcome) → outcome_rank a ≡ outcome_rank b → a ≡ b
outcome_distinct a b h = ground arith

retry_distinct : (a b : Option ProviderOutcome) → retry_rank a ≡ retry_rank b → a ≡ b
retry_distinct none none h = refl
retry_distinct none (some b) h = absurd (omega arith)
retry_distinct (some a) none h = absurd (omega arith)
retry_distinct (some a) (some b) h = ap some (outcome_distinct a b (omega arith))

script_distinct : (a b : ProviderOutcomeScript) (m n : ℕ) → script_key m a ≡ script_key n b → a ≡ b
script_distinct a b m n h =
    let f : outcome_rank a.first ≡ outcome_rank b.first = ap (λ (k : Key). k.1) h in
    let r : retry_rank a.retry ≡ retry_rank b.retry = ap (λ (k : Key). k.2) h in
    ground (arith, outcome_distinct a.first b.first f, retry_distinct a.retry b.retry r)

cut_point_distinct : (a b : ProcessCutPoint) → cut_point_rank a ≡ cut_point_rank b → a ≡ b
cut_point_distinct a b h = ground arith

variant : (a b : PlanActionKind) → action_key a ≡ action_key b → (action_key a).0 ≡ (action_key b).0
variant a b h = ap (λ (k : Key). k.0) h

pub action_key-distinct : (a b : PlanActionKind) → action_key a ≡ action_key b → a ≡ b
action_key-distinct (drive_checkout s) (drive_checkout t) h =
    ap drive_checkout (script_distinct s t 0 0 h)
action_key-distinct (retry_business_request s) (retry_business_request t) h =
    ap retry_business_request (script_distinct s t 3 3 h)
action_key-distinct (confirm_payment_intent s) (confirm_payment_intent t) h =
    ap confirm_payment_intent (script_distinct s t 4 4 h)
action_key-distinct (retry_provider_request s) (retry_provider_request t) h =
    ap retry_provider_request (script_distinct s t 5 5 h)
action_key-distinct (delay_webhook m) (delay_webhook n) h =
    ap delay_webhook (ap (λ (k : Key). k.1) h)
action_key-distinct (kill_application c) (kill_application d) h =
    ap kill_application (cut_point_distinct c d (ap (λ (k : Key). k.1) h))
action_key-distinct retrieve_payment_intent retrieve_payment_intent h = refl
action_key-distinct release_provider_gate release_provider_gate h = refl
action_key-distinct generate_provider_event generate_provider_event h = refl
action_key-distinct deliver_webhook deliver_webhook h = refl
action_key-distinct duplicate_webhook duplicate_webhook h = refl
action_key-distinct reorder_webhooks reorder_webhooks h = refl
action_key-distinct drop_webhook drop_webhook h = refl
action_key-distinct restart_and_await_health restart_and_await_health h = refl
action_key-distinct wait_for_quiescence wait_for_quiescence h = refl
action_key-distinct (check_checkpoint final) (check_checkpoint final) h = refl
action_key-distinct a b h = absurd (omega (arith, variant a b h))

abbrev pub action_order : Ord PlanActionKind
action_order = by_key action_key action_key-distinct
