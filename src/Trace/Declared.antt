-- ===== src/Trace/Declared.antt =====
-- crates/tiv-core/src/trace.rs: what the loop of `materialize_case_actions` refers to was declared before.
use tx_proof.Common.{
  ℕ, suc, ◌+◌, ◌≡◌, inl, inr, refl, sym, subst, arith, Option, none, some, List, [], ◌∷◌, ◌++◌, map,
  length, get_elem?, Result, ok, err, All, All-append, All-imp, All-member, Member,
  Member-append_left, Member-append_right, Member-get_elem?, Bool-cases, Result-cases, ok_or, ◌>>=◌,
}
use mathlib.Core.List.{append_assoc, append-nil}
use tx_proof.Plan.Types.{
  ProviderOutcome, ProviderOutcomeScript, outcomes, PlanActionKind, drive_checkout,
  retry_business_request, retrieve_payment_intent, confirm_payment_intent, retry_provider_request,
  generate_provider_event, release_provider_gate, deliver_webhook, duplicate_webhook, delay_webhook,
  reorder_webhooks, drop_webhook, kill_application, restart_and_await_health, wait_for_quiescence,
  check_checkpoint,
}
use tx_proof.Plan.Compiler.{PlannedAction}
use tx_proof.Trace.Types.{
  CaseOutputRef, CaseOutputSlot, CaseInputSlot, payment_intent_output, event_output, gate_output,
  CaseActionInput, payment_intent_input, gate_input, CompiledCaseAction,
  CaseTraceMaterializationError, missing_dynamic_source,
}
use tx_proof.Trace.Actions.{
  TraceState, new_trace, Found, output_of, for_occurrence, is_held, provider_create_commits,
  reserve_object, reserve_objects, reserve_gate, reserve_business_provider_outputs, provider_found,
  event_found, release_found, checked_rem, active_input, input_from, compiled_action, find_sources,
  materialize_from_state,
}

-- The inputs that an action of each kind needs.
abbrev pub needed_inputs : PlanActionKind → List CaseInputSlot
needed_inputs retrieve_payment_intent = payment_intent_input ∷ []
needed_inputs (confirm_payment_intent _) = payment_intent_input ∷ []
needed_inputs (retry_provider_request _) = payment_intent_input ∷ []
needed_inputs generate_provider_event = payment_intent_input ∷ []
needed_inputs release_provider_gate = gate_input ∷ []
needed_inputs _ = []

abbrev pub output_for : CaseInputSlot → CaseOutputSlot
output_for payment_intent_input = payment_intent_output
output_for gate_input = gate_output

-- The source of an input is one of the outputs declared before, of the kind that the input takes.
abbrev pub HasSource : List CaseOutputRef → CaseActionInput → Type 0
HasSource before input = Member input.source before × (input.source.slot ≡ output_for input.slot)

-- One compiled action for each planned one, with the inputs that it needs, each with its source among
-- the outputs that the actions before it declare.
abbrev pub HaveSources : List CaseOutputRef → List PlannedAction → List CompiledCaseAction → Type 0
HaveSources before [] [] = Unit
HaveSources before (planned ∷ actions) (action ∷ compiled) =
    (action.id ≡ planned.id)
    × (action.kind ≡ planned.kind)
    × (map (λ input. input.slot) action.inputs ≡ needed_inputs planned.kind)
    × All (HasSource before) action.inputs
    × All (λ ref. ref.action_id ≡ planned.id) action.declared_outputs
    × HaveSources (before ++ action.declared_outputs) actions compiled
HaveSources before _ _ = ⊥

abbrev IsDeclared : CaseOutputSlot → List CaseOutputRef → CaseOutputRef → Type 0
IsDeclared slot before ref = Member ref before × (ref.slot ≡ slot)

abbrev IfSome : (CaseOutputRef → Type 0) → Option CaseOutputRef → Type 0
IfSome P none = Unit
IfSome P (some ref) = P ref

-- Every reference in the variables of the loop was declared, as what it is used for.
pub record AreDeclared (before : List CaseOutputRef) (t : TraceState) : Type 0 where
  active : IfSome (IsDeclared payment_intent_output before) t.active_payment_intent
  objects : All (IsDeclared payment_intent_output before) t.provider_objects
  gate : IfSome (IsDeclared gate_output before) t.held_provider_gate

IsDeclared-append :
    (slot : CaseOutputSlot) (before more : List CaseOutputRef) (ref : CaseOutputRef)
    → IsDeclared slot before ref
    → IsDeclared slot (before ++ more) ref
IsDeclared-append slot before more ref (m, e) = (Member-append_left ref before more m, e)

IfSome-append :
    (slot : CaseOutputSlot) (before more : List CaseOutputRef) (ref : Option CaseOutputRef)
    → IfSome (IsDeclared slot before) ref
    → IfSome (IsDeclared slot (before ++ more)) ref
IfSome-append slot before more none h = tt
IfSome-append slot before more (some ref) h = IsDeclared-append slot before more ref h

AreDeclared-append :
    (before more : List CaseOutputRef) (t : TraceState)
    → AreDeclared before t
    → AreDeclared (before ++ more) t
AreDeclared-append before more t h = record {
  active = IfSome-append payment_intent_output before more t.active_payment_intent h.active;
  objects =
      All-imp (IsDeclared-append payment_intent_output before more) t.provider_objects h.objects;
  gate = IfSome-append gate_output before more t.held_provider_gate h.gate;
}

newly_declared :
    (before : List CaseOutputRef) (ref : CaseOutputRef) → Member ref (before ++ ref ∷ [])
newly_declared before ref = Member-append_right ref before (ref ∷ []) (inl refl)

abbrev Reserved : Type 0
Reserved = List CaseOutputRef × TraceState

module _ (before : List CaseOutputRef) (id : ℕ) where
  -- What was reserved is the action's own, and the variables refer to it or to what was there before.
  abbrev IsReserved : Reserved → Type 0
  IsReserved (declared, t) =
      AreDeclared (before ++ declared) t × All (λ ref. ref.action_id ≡ id) declared

  add_own :
      (declared : List CaseOutputRef) (ref : CaseOutputRef) (t : TraceState)
      → ref.action_id ≡ id
      → AreDeclared ((before ++ declared) ++ ref ∷ []) t
      → All (λ ref. ref.action_id ≡ id) declared
      → IsReserved (declared ++ ref ∷ [], t)
  add_own declared ref t own h all = (
    subst (λ refs. AreDeclared refs t) (append_assoc before declared (ref ∷ [])) h,
    All-append (λ ref. ref.action_id ≡ id) declared (ref ∷ []) all (own, tt),
  )

  object-IsReserved :
      (n : ℕ) (o : ProviderOutcome) (r : Reserved)
      → IsReserved r
      → IsReserved (reserve_object id n o r)
  object-IsReserved n o (declared, t) (h, all) = elim (Bool-cases (provider_create_commits o)) [
    | inr e ↦ rw e (h, all)
    | inl e ↦
        let ref = for_occurrence id payment_intent_output n in
        let here = before ++ declared in
        let kept = AreDeclared-append here (ref ∷ []) t h in
        rw e (
          add_own declared ref _ refl
            (record {
              active = (newly_declared here ref, refl);
              objects =
                  All-append (IsDeclared payment_intent_output (here ++ ref ∷ []))
                    t.provider_objects (ref ∷ []) kept.objects
                    ((newly_declared here ref, refl), tt);
              gate = kept.gate;
            })
            all)
  ]

  objects-IsReserved :
      (n : ℕ) (os : List ProviderOutcome) (r : Reserved)
      → IsReserved r
      → IsReserved (reserve_objects id n os r)
  objects-IsReserved n [] r h = h
  objects-IsReserved n (o ∷ os) r h =
      objects-IsReserved (suc n) os (reserve_object id n o r) (object-IsReserved n o r h)

  gate-IsReserved :
      (script : ProviderOutcomeScript) (r : Reserved)
      → IsReserved r
      → IsReserved (reserve_gate id script r)
  gate-IsReserved script (declared, t) (h, all) = elim (Bool-cases (is_held script)) [
    | inr e ↦ rw e (h, all)
    | inl e ↦
        let ref = output_of id gate_output in
        let here = before ++ declared in
        let kept = AreDeclared-append here (ref ∷ []) t h in
        rw e (
          add_own declared ref _ refl
            (record {
              active = kept.active;
              objects = kept.objects;
              gate = (newly_declared here ref, refl);
            })
            all)
  ]

  nothing-IsReserved : (t : TraceState) → AreDeclared before t → IsReserved ([], t)
  nothing-IsReserved t h = (subst (λ refs. AreDeclared refs t) (sym (append-nil before)) h, tt)

  -- What one iteration finds, if it finds its sources.
  abbrev pub FindsDeclared : PlanActionKind → Result CaseTraceMaterializationError Found → Type 0
  FindsDeclared kind (err e) = Unit
  FindsDeclared kind (ok found) =
      (map (λ input. input.slot) found.inputs ≡ needed_inputs kind)
      × All (HasSource before) found.inputs
      × IsReserved (found.declared, found.state)

  active-FindsDeclared :
      (kind : PlanActionKind) (active : Option CaseOutputRef)
      (rest : CaseActionInput → Result CaseTraceMaterializationError Found)
      → IfSome (IsDeclared payment_intent_output before) active
      → ((ref : CaseOutputRef)
          → IsDeclared payment_intent_output before ref
          → FindsDeclared kind (rest (input_from payment_intent_input ref)))
      → FindsDeclared kind (active_input id active >>= rest)
  active-FindsDeclared kind none rest h next = tt
  active-FindsDeclared kind (some ref) rest h next = next ref h

  option-FindsDeclared :
      {A : Type 0} (kind : PlanActionKind) (option : Option A) (e : CaseTraceMaterializationError)
      (rest : A → Result CaseTraceMaterializationError Found)
      → ((a : A) → option ≡ some a → FindsDeclared kind (rest a))
      → FindsDeclared kind (ok_or option e >>= rest)
  option-FindsDeclared kind none e rest next = tt
  option-FindsDeclared kind (some a) e rest next = next a refl

  provider-FindsDeclared :
      (kind : PlanActionKind) (script : ProviderOutcomeScript) (t : TraceState)
      → payment_intent_input ∷ [] ≡ needed_inputs kind
      → AreDeclared before t
      → FindsDeclared kind (provider_found id script t)
  provider-FindsDeclared kind script t needs h =
      active-FindsDeclared kind t.active_payment_intent _ h.active
        (λ ref d. (needs, (d, tt), gate-IsReserved script ([], t) (nothing-IsReserved t h)))

  event-FindsDeclared :
      (t : TraceState)
      → AreDeclared before t
      → FindsDeclared generate_provider_event (event_found id t)
  event-FindsDeclared t h =
      let missing = missing_dynamic_source id payment_intent_input in
      let found : CaseOutputRef → Result CaseTraceMaterializationError Found = λ source.
        ok (record {
          inputs = input_from payment_intent_input source ∷ [];
          declared = output_of id event_output ∷ [];
          state = record t { generated_provider_events = t.generated_provider_events + 1 };
        }) in
      let objects = t.provider_objects in
      let kept = AreDeclared-append before (output_of id event_output ∷ []) t h in
      option-FindsDeclared generate_provider_event
        (checked_rem t.generated_provider_events (length objects)) missing
        (λ index. ok_or (get_elem? objects index) missing >>= found)
        (λ index _.
          option-FindsDeclared generate_provider_event (get_elem? objects index) missing found
            (λ ref e. (
              refl,
              (
                All-member (IsDeclared payment_intent_output before) objects ref h.objects
                    (Member-get_elem? objects index ref e),
                tt,
              ),
              (
                record { active = kept.active; objects = kept.objects; gate = kept.gate },
                (refl, tt),
              ),
            )))

  release-FindsDeclared :
      (t : TraceState) (held : Option CaseOutputRef)
      → AreDeclared before t
      → t.held_provider_gate ≡ held
      → FindsDeclared release_provider_gate (release_found id t)
  release-FindsDeclared t none h e = rw e tt
  release-FindsDeclared t (some ref) h e =
      let d : IsDeclared gate_output before ref =
        subst (IfSome (IsDeclared gate_output before)) e h.gate in
      rw e (
        refl,
        (d, tt),
        nothing-IsReserved (record t { held_provider_gate = none })
            (record { active = h.active; objects = h.objects; gate = tt }),
      )

  find_sources-FindsDeclared :
      (kind : PlanActionKind) (t : TraceState)
      → AreDeclared before t
      → FindsDeclared kind (find_sources id kind t)
  unfolding reserve_business_provider_outputs
  find_sources-FindsDeclared (drive_checkout script) t h = (
    refl,
    tt,
    gate-IsReserved script (reserve_objects id 0 (outcomes script) ([], t))
        (objects-IsReserved 0 (outcomes script) ([], t) (nothing-IsReserved t h)),
  )
  find_sources-FindsDeclared (retry_business_request script) t h = (
    refl,
    tt,
    gate-IsReserved script (reserve_objects id 0 (outcomes script) ([], t))
        (objects-IsReserved 0 (outcomes script) ([], t) (nothing-IsReserved t h)),
  )
  find_sources-FindsDeclared retrieve_payment_intent t h =
      active-FindsDeclared retrieve_payment_intent t.active_payment_intent _ h.active
        (λ ref d. (refl, (d, tt), nothing-IsReserved t h))
  find_sources-FindsDeclared (confirm_payment_intent script) t h =
      provider-FindsDeclared (confirm_payment_intent script) script t refl h
  find_sources-FindsDeclared (retry_provider_request script) t h =
      provider-FindsDeclared (retry_provider_request script) script t refl h
  find_sources-FindsDeclared generate_provider_event t h = event-FindsDeclared t h
  find_sources-FindsDeclared release_provider_gate t h =
      release-FindsDeclared t t.held_provider_gate h refl
  find_sources-FindsDeclared deliver_webhook t h = (refl, tt, nothing-IsReserved t h)
  find_sources-FindsDeclared duplicate_webhook t h = (refl, tt, nothing-IsReserved t h)
  find_sources-FindsDeclared (delay_webhook _) t h = (refl, tt, nothing-IsReserved t h)
  find_sources-FindsDeclared reorder_webhooks t h = (refl, tt, nothing-IsReserved t h)
  find_sources-FindsDeclared drop_webhook t h = (refl, tt, nothing-IsReserved t h)
  find_sources-FindsDeclared (kill_application _) t h = (refl, tt, nothing-IsReserved t h)
  find_sources-FindsDeclared restart_and_await_health t h = (refl, tt, nothing-IsReserved t h)
  find_sources-FindsDeclared wait_for_quiescence t h = (refl, tt, nothing-IsReserved t h)
  find_sources-FindsDeclared (check_checkpoint _) t h = (refl, tt, nothing-IsReserved t h)

pub nothing_declared : AreDeclared [] new_trace
nothing_declared = record { active = tt; objects = tt; gate = tt }

-- What the loop gives, if it gives something, has the sources that it needs.
pub materialize-HaveSources :
    (before : List CaseOutputRef) (t : TraceState) (actions : List PlannedAction)
    (compiled : List CompiledCaseAction)
    → AreDeclared before t
    → materialize_from_state t actions ≡ ok compiled
    → HaveSources before actions compiled
unfolding materialize_from_state
materialize-HaveSources before t [] compiled h e =
    let shape : List.[] ≡ compiled = ground arith in subst (HaveSources before []) shape tt
materialize-HaveSources before t (planned ∷ actions) compiled h e =
    elim (Result-cases (find_sources planned.id planned.kind t)) [
      | inr (failure, f) ↦ absurd (ground arith)
      | inl (found, f) ↦ elim (Result-cases (materialize_from_state found.state actions)) [
        | inr (failure, g) ↦ absurd (ground arith)
        | inl (rest, g) ↦
            let (needs, sources, (declared, own)) =
              subst (FindsDeclared before planned.id planned.kind) f
                (find_sources-FindsDeclared before planned.id planned.kind t h) in
            let shape : compiled_action planned found ∷ rest ≡ compiled = ground arith in
            subst (HaveSources before (planned ∷ actions)) shape (
              (
                refl,
                refl,
                needs,
                sources,
                own,
                materialize-HaveSources (before ++ found.declared) found.state actions rest declared
                    g,
              ))
      ]
    ]
