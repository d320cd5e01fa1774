-- ===== src/Trace/Types.antt =====
-- crates/tiv-core/src/trace.rs: what the actions of a case consume and capture.
use tx_proof.Common.{
  ℕ, ◌≡◌, arith, List, string_discrete, ℕ_discrete, Result, ok, ◌>>◌, reject_if, ◌==◌,
}
use tx_proof.Order.{Ord, Key, by_key}
use tx_proof.Ids.{PaymentIntentId, EventId}
use tx_proof.Plan.Types.{PlanActionKind, action_discrete}

pub data InvalidProviderGateId : Type 0 where
  invalid_provider_gate_id : InvalidProviderGateId

pub record ProviderGateId : Type 0 where
  pub value : ℕ

abbrev pub new_provider_gate_id : ℕ → Result InvalidProviderGateId ProviderGateId
new_provider_gate_id value = do
  reject_if (value == 0) invalid_provider_gate_id
  ok (record { value = value })

pub data CaseOutputSlot : Type 0 where
  payment_intent_output event_output gate_output : CaseOutputSlot

pub data CaseInputSlot : Type 0 where
  payment_intent_input gate_input : CaseInputSlot

pub record CaseOutputRef : Type 0 where
  pub action_id : ℕ
  pub slot : CaseOutputSlot
  pub occurrence : ℕ

pub data CaseCapturedValue : Type 0 where
  payment_intent_value : PaymentIntentId → CaseCapturedValue
  event_value : EventId → CaseCapturedValue
  gate_value : ProviderGateId → CaseCapturedValue

-- `CaseCapturedValue::kind`
abbrev pub value_kind : CaseCapturedValue → CaseOutputSlot
value_kind (payment_intent_value _) = payment_intent_output
value_kind (event_value _) = event_output
value_kind (gate_value _) = gate_output

pub record CaseActionInput : Type 0 where
  pub slot : CaseInputSlot
  pub source : CaseOutputRef

pub record CaseCapturedOutput : Type 0 where
  pub output_ref : CaseOutputRef
  pub value : CaseCapturedValue

-- `declared_outputs` is the ascending list of the set.
pub record CompiledCaseAction : Type 0 where
  pub id : ℕ
  pub logical_sequence : ℕ
  pub dependencies : List ℕ
  pub decision_number : ℕ
  pub eligible_count : ℕ
  pub kind : PlanActionKind
  pub inputs : List CaseActionInput
  pub declared_outputs : List CaseOutputRef

pub data CaseTraceMaterializationError : Type 0 where
  invalid_planned_case invalid_shrink_candidate : CaseTraceMaterializationError
  duplicate_output missing_output unexpected_output : CaseOutputRef → CaseTraceMaterializationError
  output_type_mismatch : CaseOutputRef → CaseOutputSlot → CaseTraceMaterializationError
  missing_dynamic_source : ℕ → CaseInputSlot → CaseTraceMaterializationError

abbrev pub slot_index : CaseOutputSlot → ℕ
slot_index payment_intent_output = 0
slot_index event_output = 1
slot_index gate_output = 2

-- The derived order of `CaseOutputRef`
abbrev pub ref_key : CaseOutputRef → Key
ref_key ref = (ref.action_id, slot_index ref.slot, ref.occurrence)

pub ref_key-injective : (a b : CaseOutputRef) → ref_key a ≡ ref_key b → a ≡ b
ref_key-injective a b h = ground arith

abbrev pub ref_order : Ord CaseOutputRef
ref_order = by_key ref_key ref_key-injective

unfoldable pub slot_discrete : Discrete CaseOutputSlot
slot_discrete = hlevel

unfoldable pub ref_discrete : Discrete CaseOutputRef
unfolding ℕ_discrete slot_discrete
ref_discrete = hlevel (ℕ_discrete, slot_discrete)

unfoldable pub captured_discrete : Discrete (List CaseCapturedOutput)
unfolding ℕ_discrete string_discrete slot_discrete
captured_discrete = hlevel (ℕ_discrete, string_discrete, slot_discrete)

unfoldable pub compiled_actions_discrete : Discrete (List CompiledCaseAction)
unfolding ℕ_discrete slot_discrete action_discrete
compiled_actions_discrete = hlevel (ℕ_discrete, slot_discrete, action_discrete)
