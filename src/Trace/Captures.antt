-- ===== src/Trace/Captures.antt =====
-- crates/tiv-core/src/trace.rs: `bind_case_captures`. A `BTreeMap` is the list of its entries in the
-- order of their keys, a `BTreeSet` the ascending list of its elements.
use Prim.Native.Nat.{Ordering}
use Prim.Native.Nat.Ordering.{lt, eq, gt}
use tx_proof.Common.{
  Bool, true, false, not, Option, none, some, List, [], ◌∷◌, Result, ok, err, ◌>>=◌, ◌>>◌, ok_or,
  reject_if, flat_map, find?, contains, holds, if◌then◌else◌,
}
use tx_proof.Decision.{sort, dedup}
use tx_proof.Trace.Types.{
  CaseOutputRef, CaseCapturedValue, value_kind, CaseCapturedOutput, CompiledCaseAction, ref_order,
  ref_discrete, slot_discrete, CaseTraceMaterializationError, duplicate_output, missing_output,
  unexpected_output, output_type_mismatch,
}

-- `BTreeMap::insert`: the map after it, and whether the key was there. `later` is the insertion into
-- the entries after the first one.
abbrev pub place :
    CaseCapturedOutput
    → CaseCapturedOutput
    → List CaseCapturedOutput
    → List CaseCapturedOutput × Bool
    → Ordering
    → List CaseCapturedOutput × Bool
place entry first rest later lt = (entry ∷ first ∷ rest, false)
place entry first rest later eq = (entry ∷ rest, true)
place entry first rest later gt = (first ∷ later.0, later.1)

unfoldable pub insert_capture :
    CaseCapturedOutput → List CaseCapturedOutput → List CaseCapturedOutput × Bool
insert_capture entry [] = (entry ∷ [], false)
insert_capture entry (first ∷ rest) =
    place entry first rest (insert_capture entry rest)
      (ref_order.cmp entry.output_ref first.output_ref)

-- The loop that collects the captures, from a map on.
unfoldable pub collect_captures :
    List CaseCapturedOutput
    → List CaseCapturedOutput
    → Result CaseTraceMaterializationError (List CaseCapturedOutput)
collect_captures captured [] = ok captured
collect_captures captured (entry ∷ entries) = do
  let inserted = insert_capture entry captured
  reject_if inserted.1 (duplicate_output entry.output_ref)
  collect_captures inserted.0 entries

abbrev pub get_capture : List CaseCapturedOutput → CaseOutputRef → Option CaseCapturedValue
get_capture [] ref = none
get_capture (entry ∷ entries) ref =
    if holds (ref_discrete entry.output_ref ref) then some entry.value else get_capture entries ref

abbrev pub declared_refs : List CompiledCaseAction → List CaseOutputRef
declared_refs actions = flat_map (λ action. action.declared_outputs) actions

unfoldable pub declared_set : List CompiledCaseAction → List CaseOutputRef
declared_set actions = dedup ref_order (sort ref_order (declared_refs actions))

abbrev pub reject_unexpected : Option CaseCapturedOutput → Result CaseTraceMaterializationError Unit
reject_unexpected none = ok tt
reject_unexpected (some entry) = err (unexpected_output entry.output_ref)

unfoldable pub check_outputs :
    List CaseCapturedOutput → List CaseOutputRef → Result CaseTraceMaterializationError Unit
check_outputs captured [] = ok tt
check_outputs captured (ref ∷ refs) = do
  value ← ok_or (get_capture captured ref) (missing_output ref)
  reject_if (not (holds (slot_discrete (value_kind value) ref.slot)))
      (output_type_mismatch ref (value_kind value))
  check_outputs captured refs

unfoldable pub bind_case_captures :
    List CompiledCaseAction
    → List CaseCapturedOutput
    → Result CaseTraceMaterializationError (List CaseCapturedOutput)
bind_case_captures actions entries = do
  let declared = declared_set actions
  captured ← collect_captures [] entries
  reject_unexpected
      (find? (λ entry. not (contains ref_discrete declared entry.output_ref)) captured)
  check_outputs captured declared
  ok captured
