-- ===== src/Plan/Types.antt =====
-- crates/tiv-core/src/plan.rs: provider outcomes and scripts, cut points and the planned actions.
use mathlib.Core.Bool.{cond}
use tx_proof.Common.{
  ℕ, ◌+◌, Bool, true, false, ◌&&◌, ◌||◌, Option, none, some, List, [], ◌∷◌, ℕ_discrete, Result, ok,
  err,
}

pub data ProviderOutcome : Type 0 where
  normal pre_execute_429 pre_execute_500 post_execute_500 commit_then_close commit_then_delay :
      ProviderOutcome

abbrev pub commits : ProviderOutcome → Bool
commits pre_execute_429 = false
commits pre_execute_500 = false
commits _ = true

abbrev pub response_is_ambiguous : ProviderOutcome → Bool
response_is_ambiguous post_execute_500 = true
response_is_ambiguous commit_then_close = true
response_is_ambiguous commit_then_delay = true
response_is_ambiguous _ = false

pub data InvalidProviderOutcomeScript : Type 0 where
  retry_without_transport_failure : InvalidProviderOutcomeScript

pub record ProviderOutcomeScript : Type 0 where
  pub first : ProviderOutcome
  pub retry : Option ProviderOutcome

abbrev pub single : ProviderOutcome → ProviderOutcomeScript
single outcome = record { first = outcome; retry = none }

-- Only a first call that closes its connection after committing may be followed by a second one.
abbrev pub with_transport_retry :
    ProviderOutcome → ProviderOutcome → Result InvalidProviderOutcomeScript ProviderOutcomeScript
with_transport_retry commit_then_close retry =
    ok (record { first = commit_then_close; retry = some retry })
with_transport_retry _ retry = err retry_without_transport_failure

-- `Deserialize for ProviderOutcomeScript`, from the two fields of the wire form.
unfoldable pub script_of_wire :
    ProviderOutcome
    → Option ProviderOutcome
    → Result InvalidProviderOutcomeScript ProviderOutcomeScript
script_of_wire first none = ok (single first)
script_of_wire first (some retry) = with_transport_retry first retry

abbrev pub outcomes : ProviderOutcomeScript → List ProviderOutcome
outcomes script = elim script.retry [
  | none ↦ script.first ∷ []
  | some retry ↦ script.first ∷ retry ∷ []
]

abbrev pub terminal_outcome : ProviderOutcomeScript → ProviderOutcome
terminal_outcome script = elim script.retry [ none ↦ script.first | some retry ↦ retry ]

abbrev pub committed_count : ProviderOutcomeScript → ℕ
committed_count script =
    cond (commits script.first) 1 0
    + elim script.retry [ none ↦ 0 | some outcome ↦ cond (commits outcome) 1 0 ]

abbrev pub has_ambiguous_commit : ProviderOutcomeScript → Bool
has_ambiguous_commit script =
    (commits script.first && response_is_ambiguous script.first) || elim script.retry [
      | none ↦ false
      | some outcome ↦ commits outcome && response_is_ambiguous outcome
    ]

pub data ProcessCutPoint : Type 0 where
  client_request_forwarded client_response_observed webhook_request_forwarded
        webhook_response_observed sql_probe :
      ProcessCutPoint

pub data ProviderAdapter : Type 0 where
  payment_intent_v1 : ProviderAdapter

pub data Checkpoint : Type 0 where
  final : Checkpoint

pub data PlanActionKind : Type 0 where
  drive_checkout : ProviderOutcomeScript → PlanActionKind
  retrieve_payment_intent release_provider_gate : PlanActionKind
  retry_business_request confirm_payment_intent retry_provider_request :
      ProviderOutcomeScript → PlanActionKind
  generate_provider_event deliver_webhook duplicate_webhook : PlanActionKind
  delay_webhook : ℕ → PlanActionKind
  reorder_webhooks drop_webhook : PlanActionKind
  kill_application : ProcessCutPoint → PlanActionKind
  restart_and_await_health wait_for_quiescence : PlanActionKind
  check_checkpoint : Checkpoint → PlanActionKind

unfoldable pub outcome_discrete : Discrete ProviderOutcome
outcome_discrete = hlevel

unfoldable pub cut_point_discrete : Discrete ProcessCutPoint
cut_point_discrete = hlevel

unfoldable pub adapter_discrete : Discrete ProviderAdapter
adapter_discrete = hlevel

unfoldable pub script_discrete : Discrete ProviderOutcomeScript
script_discrete = hlevel

unfoldable pub action_discrete : Discrete PlanActionKind
unfolding script_discrete cut_point_discrete ℕ_discrete
action_discrete = hlevel (script_discrete, cut_point_discrete, ℕ_discrete)
