-- ===== src/Trace/Bound.antt =====
-- crates/tiv-core/src/trace.rs: what a materialized trace captures.
use tx_proof.Common.{
  ◌≡◌, refl, subst, arith, not, Option, none, some, List, [], ◌∷◌, ok, Result-cases, Option-cases,
  Bool-cases, find?, contains, Member, Member-contains, All, inl, inr,
}
use tx_proof.Decision.{RandomSource}
use tx_proof.Plan.Compiler.{PlannedCase}
use tx_proof.Trace.Types.{
  CaseOutputRef, CaseCapturedValue, value_kind, CaseCapturedOutput, CompiledCaseAction,
  ref_discrete,
}
use tx_proof.Trace.Captures.{
  collect_captures, get_capture, declared_set, reject_unexpected, check_outputs, bind_case_captures,
}
use tx_proof.Trace.Materialize.{CompiledCaseTrace, case_actions, materialize_case, read_case_trace}
use tx_proof.Trace.Rebinding.{IsMap, collect-IsMap, read-materialized}

-- The captures, in the order of their keys, are each declared output with a value of its kind, and
-- nothing else.
pub record IsBinding (declared : List CaseOutputRef) (captured : List CaseCapturedOutput)
    : Type 0 where
  pub rising : IsMap captured
  pub complete :
      All
        (λ ref.
          (value : CaseCapturedValue) × (get_capture captured ref ≡ some value)
          × (value_kind value ≡ ref.slot))
        declared
  pub expected : All (λ entry. Member entry.output_ref declared) captured

find?-none-declared :
    (declared : List CaseOutputRef) (captured : List CaseCapturedOutput)
    → find? (λ entry. not (contains ref_discrete declared entry.output_ref)) captured ≡ none
    → All (λ entry. Member entry.output_ref declared) captured
find?-none-declared declared [] h = tt
find?-none-declared declared (entry ∷ captured) h =
    elim (Bool-cases (contains ref_discrete declared entry.output_ref)) [
      | inl e ↦ (
        Member-contains ref_discrete declared entry.output_ref e,
        find?-none-declared declared captured (ground arith),
      )
      | inr e ↦ absurd (ground arith)
    ]

check_outputs-All :
    (captured : List CaseCapturedOutput) (refs : List CaseOutputRef)
    → check_outputs captured refs ≡ ok tt
    → All
        (λ ref.
          (value : CaseCapturedValue) × (get_capture captured ref ≡ some value)
          × (value_kind value ≡ ref.slot))
        refs
unfolding check_outputs
check_outputs-All captured [] h = tt
check_outputs-All captured (ref ∷ refs) h = elim (Option-cases (get_capture captured ref)) [
  | inl e ↦ absurd (ground arith)
  | inr (value, e) ↦ ((value, e, ground arith), check_outputs-All captured refs (ground arith))
]

reject_unexpected-none :
    (found : Option CaseCapturedOutput) → reject_unexpected found ≡ ok tt → found ≡ none
reject_unexpected-none none h = refl
reject_unexpected-none (some entry) h = cc

bind-IsBinding :
    (actions : List CompiledCaseAction) (entries captured : List CaseCapturedOutput)
    → bind_case_captures actions entries ≡ ok captured
    → IsBinding (declared_set actions) captured
unfolding bind_case_captures
bind-IsBinding actions entries captured h =
    let declared = declared_set actions in
    elim (Result-cases (collect_captures [] entries)) [
      | inr (error, e) ↦ absurd (ground arith)
      | inl (collected, e) ↦
          let same : collected ≡ captured = ground arith in
          let unexpected : reject_unexpected
                (find? (λ entry. not (contains ref_discrete declared entry.output_ref)) collected)
              ≡ ok tt =
            ground arith in
          let checked : check_outputs collected declared ≡ ok tt = ground arith in
          subst (IsBinding declared) same (record {
            rising = collect-IsMap [] entries collected tt e;
            complete = check_outputs-All collected declared checked;
            expected = find?-none-declared declared collected (reject_unexpected-none _ unexpected);
          })
    ]

-- A materialized trace captures each declared output with a value of its kind and nothing else, in
-- the order of the keys, and reading back what was written gives the same trace.
pub materialize_case-reads :
    {R : Type 0} (source : RandomSource R) (planned : PlannedCase)
    (entries : List CaseCapturedOutput) (trace : CompiledCaseTrace)
    → materialize_case source planned entries ≡ ok trace
    → IsBinding (declared_set trace.actions) trace.captured
      × (read_case_trace source trace ≡ ok trace)
unfolding materialize_case
materialize_case-reads source planned entries trace h =
    elim (Result-cases (case_actions source planned)) [
      | inr (error, e) ↦ absurd (ground arith)
      | inl (actions, e) ↦ elim (Result-cases (bind_case_captures actions entries)) [
        | inr (error, f) ↦ absurd (ground arith)
        | inl (captured, f) ↦
            let shape : CompiledCaseTrace = record {
              schema_version = 3;
              planned_case = planned;
              actions = actions;
              captured = captured;
            } in
            let same : shape ≡ trace = ground arith in
            (
              subst (λ t. IsBinding (declared_set t.actions) t.captured) same
                  (bind-IsBinding actions entries captured f),
              read-materialized source planned entries trace h,
            )
      ]
    ]
