-- ===== src/Trace/Materialize.antt =====
-- crates/tiv-core/src/trace.rs: `CaseTraceMaterializer`, `ShrinkTraceMaterializer`, and how the traces
-- that they make are read back and compared.
use tx_proof.Common.{
  ℕ, Bool, true, false, not, ◌&&◌, List, filter, map, flat_map, Result, ok, ◌>>=◌, ◌>>◌, map_err,
  reject_if, holds, ◌==◌,
}
use tx_proof.Decision.{RandomSource}
use tx_proof.Plan.Compiler.{PlannedCase}
use tx_proof.Plan.Artifact.{planned_discrete, validate_planned}
use tx_proof.Shrink.Candidate.{ShrinkCandidate, candidate_discrete, validate_candidate}
use tx_proof.Trace.Types.{
  CaseOutputRef, CaseInputSlot, CaseCapturedValue, gate_value, CaseCapturedOutput,
  CompiledCaseAction, CaseTraceMaterializationError, invalid_planned_case, invalid_shrink_candidate,
  captured_discrete, compiled_actions_discrete,
}
use tx_proof.Trace.Actions.{materialize_case_actions}
use tx_proof.Trace.Captures.{declared_refs, bind_case_captures}

abbrev pub case_trace_schema_version : ℕ
case_trace_schema_version = 3

abbrev pub shrink_trace_schema_version : ℕ
shrink_trace_schema_version = 1

pub record CaseInputBinding : Type 0 where
  pub action_id : ℕ
  pub slot : CaseInputSlot
  pub source : CaseOutputRef

pub record CompiledCaseTrace : Type 0 where
  pub schema_version : ℕ
  pub planned_case : PlannedCase
  pub actions : List CompiledCaseAction
  pub captured : List CaseCapturedOutput

pub record CompiledShrinkTrace : Type 0 where
  pub schema_version : ℕ
  pub candidate : ShrinkCandidate
  pub actions : List CompiledCaseAction
  pub captured : List CaseCapturedOutput

abbrev pub input_bindings : List CompiledCaseAction → List CaseInputBinding
input_bindings actions =
    flat_map
      (λ action.
        map (λ input. record { action_id = action.id; slot = input.slot; source = input.source })
          action.inputs)
      actions

-- The errors that reading a trace back turns into text.
pub data ReadError : Type 0 where
  unsupported_schema : ReadError
  invalid_trace : CaseTraceMaterializationError → ReadError
  actions_do_not_match : ReadError

module _ {R : Type 0} (source : RandomSource R) where
  -- What both materializers and their lists of requirements start with.
  unfoldable pub case_actions :
      PlannedCase → Result CaseTraceMaterializationError (List CompiledCaseAction)
  case_actions planned = do
    map_err (λ _. invalid_planned_case) (validate_planned source planned)
    materialize_case_actions planned.actions

  unfoldable pub candidate_actions :
      ShrinkCandidate → Result CaseTraceMaterializationError (List CompiledCaseAction)
  candidate_actions candidate = do
    map_err (λ _. invalid_shrink_candidate) (validate_candidate source candidate)
    materialize_case_actions candidate.actions

  abbrev pub required_outputs :
      PlannedCase → Result CaseTraceMaterializationError (List CaseOutputRef)
  required_outputs planned = do actions ← case_actions planned; ok (declared_refs actions)

  abbrev pub required_inputs :
      PlannedCase → Result CaseTraceMaterializationError (List CaseInputBinding)
  required_inputs planned = do actions ← case_actions planned; ok (input_bindings actions)

  abbrev pub required_candidate_outputs :
      ShrinkCandidate → Result CaseTraceMaterializationError (List CaseOutputRef)
  required_candidate_outputs candidate = do
    actions ← candidate_actions candidate
    ok (declared_refs actions)

  abbrev pub required_candidate_inputs :
      ShrinkCandidate → Result CaseTraceMaterializationError (List CaseInputBinding)
  required_candidate_inputs candidate = do
    actions ← candidate_actions candidate
    ok (input_bindings actions)

  -- `CaseTraceMaterializer::materialize`
  unfoldable pub materialize_case :
      PlannedCase → List CaseCapturedOutput → Result CaseTraceMaterializationError CompiledCaseTrace
  materialize_case planned entries = do
    actions ← case_actions planned
    captured ← bind_case_captures actions entries
    ok (record {
      schema_version = case_trace_schema_version;
      planned_case = planned;
      actions = actions;
      captured = captured;
    })

  -- `ShrinkTraceMaterializer::materialize`
  unfoldable pub materialize_candidate :
      ShrinkCandidate
      → List CaseCapturedOutput
      → Result CaseTraceMaterializationError CompiledShrinkTrace
  materialize_candidate candidate entries = do
    actions ← candidate_actions candidate
    captured ← bind_case_captures actions entries
    ok (record {
      schema_version = shrink_trace_schema_version;
      candidate = candidate;
      actions = actions;
      captured = captured;
    })

  -- `Deserialize for CompiledCaseTrace`, from the fields of the wire form.
  unfoldable pub read_case_trace : CompiledCaseTrace → Result ReadError CompiledCaseTrace
  read_case_trace wire = do
    reject_if (not (wire.schema_version == case_trace_schema_version)) unsupported_schema
    expected ← map_err invalid_trace (materialize_case wire.planned_case wire.captured)
    reject_if
        (not (
          (wire.schema_version == expected.schema_version)
          && (holds (planned_discrete wire.planned_case expected.planned_case)
              && (holds (compiled_actions_discrete wire.actions expected.actions)
                  && holds (captured_discrete wire.captured expected.captured)))))
        actions_do_not_match
    ok wire

  -- `Deserialize for CompiledShrinkTrace`
  unfoldable pub read_shrink_trace : CompiledShrinkTrace → Result ReadError CompiledShrinkTrace
  read_shrink_trace wire = do
    reject_if (not (wire.schema_version == shrink_trace_schema_version)) unsupported_schema
    expected ← map_err invalid_trace (materialize_candidate wire.candidate wire.captured)
    reject_if
        (not (
          (wire.schema_version == expected.schema_version)
          && (holds (candidate_discrete wire.candidate expected.candidate)
              && (holds (compiled_actions_discrete wire.actions expected.actions)
                  && holds (captured_discrete wire.captured expected.captured)))))
        actions_do_not_match
    ok wire

-- Gates are bound afresh, so they are no part of what a replay has to repeat.
abbrev pub is_durable : CaseCapturedValue → Bool
is_durable (gate_value _) = false
is_durable _ = true

abbrev pub durable_captures : List CaseCapturedOutput → List CaseCapturedOutput
durable_captures captured = filter (λ entry. is_durable entry.value) captured

unfoldable pub matches_replay_authority : CompiledCaseTrace → CompiledCaseTrace → Bool
matches_replay_authority trace executed =
    (trace.schema_version == executed.schema_version)
    && (holds (planned_discrete trace.planned_case executed.planned_case)
        && (holds (compiled_actions_discrete trace.actions executed.actions)
            && holds (
                captured_discrete (durable_captures trace.captured)
                  (durable_captures executed.captured))))

unfoldable pub matches_shrink_authority : CompiledShrinkTrace → CompiledShrinkTrace → Bool
matches_shrink_authority trace executed =
    (trace.schema_version == executed.schema_version)
    && (holds (candidate_discrete trace.candidate executed.candidate)
        && (holds (compiled_actions_discrete trace.actions executed.actions)
            && holds (
                captured_discrete (durable_captures trace.captured)
                  (durable_captures executed.captured))))
