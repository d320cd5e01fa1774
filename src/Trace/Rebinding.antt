-- ===== src/Trace/Rebinding.antt =====
-- crates/tiv-core/src/trace.rs: what `bind_case_captures` gives is bound to itself, so a trace is read
-- back as it was written.
use Prim.Native.Nat.{Ordering}
use Prim.Native.Nat.Ordering.{lt, eq, gt}
use mathlib.Core.List.{append_assoc, append-nil}
use tx_proof.Common.{
  ◌≡◌, refl, sym, ap, ◌∙◌, subst, arith, Bool, false, List, [], ◌∷◌, ◌++◌, ok, Result-cases,
  Bool-cases, All, All-imp, inl, inr,
}
use tx_proof.Decision.{RandomSource}
use tx_proof.Plan.Compiler.{PlannedCase}
use tx_proof.Trace.Types.{CaseCapturedOutput, CompiledCaseAction, ref_order}
use tx_proof.Trace.Captures.{place, insert_capture, collect_captures, bind_case_captures}
use tx_proof.Trace.Materialize.{
  CompiledCaseTrace, case_actions, materialize_case, read_case_trace, case_trace_schema_version,
}

-- The keys rise strictly.
abbrev pub IsMap : List CaseCapturedOutput → Type 0
IsMap [] = Unit
IsMap (entry ∷ entries) =
    All (λ later. ref_order.cmp entry.output_ref later.output_ref ≡ lt) entries × IsMap entries

abbrev Before : CaseCapturedOutput → CaseCapturedOutput → Type 0
Before entry later = ref_order.cmp entry.output_ref later.output_ref ≡ lt

All-place :
    (P : CaseCapturedOutput → Type 0) (entry first : CaseCapturedOutput)
    (rest : List CaseCapturedOutput) (later : List CaseCapturedOutput × Bool) (o : Ordering)
    → P entry
    → All P (first ∷ rest)
    → All P later.0
    → All P (place entry first rest later o).0
All-place P entry first rest later lt p h l = (p, h)
All-place P entry first rest later eq p h l = (p, h.1)
All-place P entry first rest later gt p h l = (h.0, l)

All-insert :
    (P : CaseCapturedOutput → Type 0) (entry : CaseCapturedOutput)
    (captured : List CaseCapturedOutput)
    → P entry
    → All P captured
    → All P (insert_capture entry captured).0
unfolding insert_capture
All-insert P entry [] p h = (p, tt)
All-insert P entry (first ∷ rest) p h =
    All-place P entry first rest (insert_capture entry rest)
      (ref_order.cmp entry.output_ref first.output_ref) p h (All-insert P entry rest p h.1)

place-IsMap :
    (entry first : CaseCapturedOutput) (rest : List CaseCapturedOutput)
    (later : List CaseCapturedOutput × Bool) (o : Ordering)
    → ref_order.cmp entry.output_ref first.output_ref ≡ o
    → IsMap (first ∷ rest)
    → (later.1 ≡ false → IsMap later.0)
    → (Before first entry → All (Before first) later.0)
    → (place entry first rest later o).1 ≡ false
    → IsMap (place entry first rest later o).0
place-IsMap entry first rest later lt e h l b fresh = (
  (
    e,
    All-imp (λ x before. ref_order.lt_trans entry.output_ref first.output_ref x.output_ref e before)
        rest h.0,
  ),
  h,
)
place-IsMap entry first rest later eq e h l b fresh = cc
place-IsMap entry first rest later gt e h l b fresh =
    (b (ref_order.lt_of_gt entry.output_ref first.output_ref e), l fresh)

insert-IsMap :
    (entry : CaseCapturedOutput) (captured : List CaseCapturedOutput)
    → IsMap captured
    → (insert_capture entry captured).1 ≡ false
    → IsMap (insert_capture entry captured).0
unfolding insert_capture
insert-IsMap entry [] h fresh = (tt, tt)
insert-IsMap entry (first ∷ rest) h fresh =
    place-IsMap entry first rest (insert_capture entry rest)
      (ref_order.cmp entry.output_ref first.output_ref) refl h
      (λ new. insert-IsMap entry rest h.1 new)
      (λ before. All-insert (Before first) entry rest before h.0) fresh

-- A key after all others goes to the end.
place-last :
    (entry first : CaseCapturedOutput) (rest : List CaseCapturedOutput)
    (later : List CaseCapturedOutput × Bool) (o : Ordering)
    → o ≡ gt
    → later ≡ (rest ++ entry ∷ [], false)
    → place entry first rest later o ≡ (first ∷ rest ++ entry ∷ [], false)
place-last entry first rest later lt e l = cc
place-last entry first rest later eq e l = cc
place-last entry first rest later gt e l = ap (λ p. (first ∷ p.0, p.1)) l

insert-last :
    (entry : CaseCapturedOutput) (captured : List CaseCapturedOutput)
    → All (λ x. Before x entry) captured
    → insert_capture entry captured ≡ (captured ++ entry ∷ [], false)
unfolding insert_capture
insert-last entry [] h = refl
insert-last entry (first ∷ rest) h =
    place-last entry first rest (insert_capture entry rest)
      (ref_order.cmp entry.output_ref first.output_ref)
      (ref_order.gt_of_lt first.output_ref entry.output_ref h.0) (insert-last entry rest h.1)

All-later :
    (captured entries : List CaseCapturedOutput) (entry : CaseCapturedOutput)
    → IsMap (captured ++ entry ∷ entries)
    → All (λ x. Before x entry) captured
All-later [] entries entry h = tt
All-later (x ∷ captured) entries entry h =
    (All-split (Before x) captured entries entry h.0, All-later captured entries entry h.1)
  where
    All-split :
        (P : CaseCapturedOutput → Type 0) (front back : List CaseCapturedOutput)
        (y : CaseCapturedOutput)
        → All P (front ++ y ∷ back)
        → P y
    All-split P [] back y a = a.0
    All-split P (z ∷ front) back y a = All-split P front back y a.1

-- Collecting entries that rise collects them all, in their order.
collect-rising :
    (captured entries : List CaseCapturedOutput)
    → IsMap (captured ++ entries)
    → collect_captures captured entries ≡ ok (captured ++ entries)
unfolding collect_captures
collect-rising captured [] h = ap ok (sym (append-nil captured))
collect-rising captured (entry ∷ entries) h =
    let last = insert-last entry captured (All-later captured entries entry h) in
    let joined = append_assoc captured (entry ∷ []) entries in
    rw last
      (collect-rising (captured ++ entry ∷ []) entries (subst IsMap (sym joined) h) ∙ ap ok joined)

pub collect-IsMap :
    (captured entries collected : List CaseCapturedOutput)
    → IsMap captured
    → collect_captures captured entries ≡ ok collected
    → IsMap collected
unfolding collect_captures
collect-IsMap captured [] collected h e = subst IsMap (ground arith) h
collect-IsMap captured (entry ∷ entries) collected h e =
    elim (Bool-cases (insert_capture entry captured).1) [
      | inl there ↦ absurd (ground arith)
      | inr fresh ↦
          collect-IsMap (insert_capture entry captured).0 entries collected
            (insert-IsMap entry captured h fresh) (ground arith)
    ]

-- What was bound is bound again as it is.
bind-again :
    (actions : List CompiledCaseAction) (entries captured : List CaseCapturedOutput)
    → bind_case_captures actions entries ≡ ok captured
    → bind_case_captures actions captured ≡ ok captured
unfolding bind_case_captures
bind-again actions entries captured h = elim (Result-cases (collect_captures [] entries)) [
  | inr (error, e) ↦ absurd (ground arith)
  | inl (collected, e) ↦
      let same : collected ≡ captured = ground arith in
      let again : collect_captures [] captured ≡ ok captured =
        collect-rising [] captured (subst IsMap same (collect-IsMap [] entries collected tt e)) in
      let first : collect_captures [] entries ≡ collect_captures [] captured =
        e ∙ ap ok same ∙ sym again in
      rw first at h
]

module _ {R : Type 0} (source : RandomSource R) where
  rematerialize_case :
      (planned : PlannedCase) (entries : List CaseCapturedOutput) (trace : CompiledCaseTrace)
      → materialize_case source planned entries ≡ ok trace
      → (trace.schema_version ≡ case_trace_schema_version)
        × (materialize_case source trace.planned_case trace.captured ≡ ok trace)
  unfolding materialize_case
  rematerialize_case planned entries trace h = elim (Result-cases (case_actions source planned)) [
    | inr (error, e) ↦ absurd (ground arith)
    | inl (actions, e) ↦ elim (Result-cases (bind_case_captures actions entries)) [
      | inr (error, f) ↦ absurd (ground arith)
      | inl (captured, f) ↦
          let again = bind-again actions entries captured f in (ground arith, ground arith)
    ]
  ]

  pub read-materialized :
      (planned : PlannedCase) (entries : List CaseCapturedOutput) (trace : CompiledCaseTrace)
      → materialize_case source planned entries ≡ ok trace
      → read_case_trace source trace ≡ ok trace
  unfolding read_case_trace
  read-materialized planned entries trace h =
      let (version, again) = rematerialize_case planned entries trace h in ground arith
