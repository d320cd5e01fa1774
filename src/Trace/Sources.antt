-- ===== src/Trace/Sources.antt =====
-- crates/tiv-core/src/trace.rs: in a history of the lifecycle every dynamic input has a source.
use tx_proof.Common.{
  ℕ, ◌+◌, ◌≡◌, refl, sym, ap₂, ◌∙◌, subst, true, List, [], ◌∷◌, String, Result, ok, err, All-member,
}
use tx_proof.Plan.Types.{PlanActionKind}
use tx_proof.Plan.Spec.{PlanSpec}
use tx_proof.Plan.Model.{Phase, ModelState, for_scheduler}
use tx_proof.Plan.Eligible.{eligible_actions}
use tx_proof.Plan.Guards.{Permits, eligible_actions-Permits}
use tx_proof.Plan.History.{Completes}
use tx_proof.Plan.Compiler.{PlannedAction}
use tx_proof.Trace.Types.{CompiledCaseAction, CaseTraceMaterializationError}
use tx_proof.Trace.Actions.{
  TraceState, new_trace, Found, find_sources, materialize_from_state, compiled_action,
  materialize_case_actions,
}
use tx_proof.Decision.{RandomSource}
use tx_proof.Plan.Compiler.{PlannedCase, compile_with_scheduler}
use tx_proof.Plan.Feasible.{IsValid}
use tx_proof.Plan.Compiled.{IsCompiled, compile-IsCompiled}
use tx_proof.Plan.Artifact.{scheduler_is_known, validate_planned, validate_planned_iff}
use tx_proof.Shrink.Candidate.{ShrinkCandidate, entry_kinds, action_kinds, validate_candidate}
use tx_proof.Shrink.Lineages.{IsNumberedFrom}
use tx_proof.Shrink.Materialized.{validate_candidate-IsCandidate}
use tx_proof.Trace.Materialize.{case_actions, candidate_actions}
use tx_proof.Trace.Reserved.{Sourced}
use tx_proof.Trace.Promised.{Finds}
use tx_proof.Trace.Declared.{HaveSources, nothing_declared, materialize-HaveSources}
use tx_proof.Trace.Phases.{find_sources-Finds}

find_sources-ok :
    (phase : Phase) (r : Result CaseTraceMaterializationError Found)
    → Finds phase r
    → (found : Found) × (r ≡ ok found) × Sourced phase found.state
find_sources-ok phase (ok found) h = (found, refl, h)
find_sources-ok phase (err error) h = absurd h

materialize-total :
    (spec : PlanSpec) (state : ModelState) (t : TraceState) (actions : List PlannedAction)
    → Sourced state.phase t
    → Completes spec state (action_kinds actions)
    → (compiled : List CompiledCaseAction) × (materialize_from_state t actions ≡ ok compiled)
unfolding materialize_from_state
materialize-total spec state t [] s c = ([], refl)
materialize-total spec state t (planned ∷ actions) s (m, (next, e, c)) =
    let permitted =
      All-member (Permits spec state) (eligible_actions state spec) planned.kind
        (eligible_actions-Permits spec state) m in
    let (found, f, s') =
      find_sources-ok next.phase (find_sources planned.id planned.kind t)
        (find_sources-Finds spec state next t s planned.id planned.kind permitted e) in
    let (rest, r) = materialize-total spec next found.state actions s' c in
    (compiled_action planned found ∷ rest, rw (f, r) refl)

-- The actions of a complete history are materialized without an error: one compiled action for each,
-- with the inputs that its kind needs, each with its source among the outputs that the actions before
-- it declare, and of the kind that the input takes.
pub materialize_case_actions-total :
    (spec : PlanSpec) (scheduler : String) (actions : List PlannedAction)
    → Completes spec (for_scheduler scheduler) (action_kinds actions)
    → (compiled : List CompiledCaseAction) × (materialize_case_actions actions ≡ ok compiled)
      × HaveSources [] actions compiled
unfolding for_scheduler
materialize_case_actions-total spec scheduler actions c =
    let (compiled, e) = materialize-total spec (for_scheduler scheduler) new_trace actions tt c in
    (compiled, e, materialize-HaveSources [] new_trace actions compiled nothing_declared e)

IsNumberedFrom-kinds :
    (index : ℕ) (kinds : List PlanActionKind) (actions : List PlannedAction)
    → IsNumberedFrom index kinds actions
    → kinds ≡ action_kinds actions
IsNumberedFrom-kinds index [] [] h = refl
IsNumberedFrom-kinds index [] (action ∷ actions) h = absurd h
IsNumberedFrom-kinds index (kind ∷ kinds) [] h = absurd h
IsNumberedFrom-kinds index (kind ∷ kinds) (action ∷ actions) h =
    ap₂ (λ k ks. k ∷ ks) (sym h.0) (IsNumberedFrom-kinds (index + 1) kinds actions h.3)

-- What a shrink candidate has to capture can always be told, if the candidate validates.
pub candidate_actions-total :
    {R : Type 0} (source : RandomSource R) (c : ShrinkCandidate)
    → validate_candidate source c ≡ ok tt
    → (compiled : List CompiledCaseAction) × (candidate_actions source c ≡ ok compiled)
unfolding candidate_actions
candidate_actions-total source c valid =
    let h = validate_candidate-IsCandidate source c valid in
    let same = IsNumberedFrom-kinds 0 (entry_kinds c.schedule) c.actions h.numbered in
    let scheduler = c.source.scheduler_algorithm in
    let (compiled, e, _) =
      materialize_case_actions-total c.source.spec scheduler c.actions
        (subst (Completes c.source.spec (for_scheduler scheduler)) same h.completes) in
    (compiled, rw (valid, e) refl)

-- The same for the case that the compiler makes of a valid specification.
pub case_actions-total :
    {R : Type 0} (source : RandomSource R) (spec : PlanSpec) (scheduler : String)
    (planned : PlannedCase)
    → IsValid spec
    → scheduler_is_known scheduler ≡ true
    → compile_with_scheduler source spec scheduler ≡ ok planned
    → (compiled : List CompiledCaseAction) × (case_actions source planned ≡ ok compiled)
unfolding case_actions
case_actions-total source spec scheduler planned valid known e =
    let compiled : IsCompiled spec scheduler (ok planned) =
      rw e at (compile-IsCompiled source spec valid scheduler) in
    let accepted : validate_planned source planned ≡ ok tt =
      (validate_planned_iff source planned).1 (
        subst (λ s. scheduler_is_known s ≡ true) (sym compiled.1) known,
        ap₂ (compile_with_scheduler source) compiled.0 compiled.1 ∙ e,
      ) in
    let (actions, f, _) =
      materialize_case_actions-total spec scheduler planned.actions compiled.2 in
    (actions, rw (accepted, f) refl)
