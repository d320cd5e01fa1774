-- ===== src/Trace/Reserved.antt =====
-- crates/tiv-core/src/trace.rs: what the loop of `materialize_case_actions` knows of provider objects and
-- gates, and how reserving outputs adds to it.
use tx_proof.Common.{
  ℕ, suc, ◌<◌, ◌≡◌, refl, arith, true, some, List, [], ◌∷◌, length, inl, inr, any, Bool-cases,
  length-append_one,
}
use tx_proof.Plan.Types.{
  ProviderOutcome, ProviderOutcomeScript, terminal_outcome, has_ambiguous_commit, outcomes,
}
use tx_proof.Plan.Model.{
  Phase, start, checkout_retryable, checkout_response_held, payment_intent_known, confirm_retryable,
  confirm_response_held, confirmed, events, quiesced, complete,
}
use tx_proof.Trace.Types.{CaseOutputRef, payment_intent_output, gate_output}
use tx_proof.Trace.Actions.{
  TraceState, is_held, provider_create_commits, reserve_object, reserve_objects, for_occurrence,
  output_of, reserve_gate,
}

-- A provider object is known, and a gate is held.
abbrev pub Known : TraceState → Type 0
Known t =
    ((ref : CaseOutputRef) × (t.active_payment_intent ≡ some ref)) × (0 < length t.provider_objects)

abbrev pub Holds : TraceState → Type 0
Holds t = (ref : CaseOutputRef) × (t.held_provider_gate ≡ some ref)

-- What the phase of the lifecycle says of the variables of the loop.
abbrev pub Sourced : Phase → TraceState → Type 0
Sourced start t = Unit
Sourced (checkout_retryable attempts ambiguous) t = ambiguous ≡ true → Known t
Sourced checkout_response_held t = Known t × Holds t
Sourced payment_intent_known t = Known t
Sourced (confirm_retryable attempts ambiguous) t = Known t
Sourced confirm_response_held t = Known t × Holds t
Sourced confirmed t = Known t
Sourced (events e) t = Known t
Sourced quiesced t = Unit
Sourced complete t = Unit

abbrev Reserved : Type 0
Reserved = List CaseOutputRef × TraceState

module _ (id : ℕ) where
  Known-commit :
      (n : ℕ) (o : ProviderOutcome) (r : Reserved)
      → provider_create_commits o ≡ true
      → Known (reserve_object id n o r).1
  Known-commit n o (declared, t) h = rw h (
    (for_occurrence id payment_intent_output n, refl),
    omega (arith, length-append_one t.provider_objects (for_occurrence id payment_intent_output n)),
  )

  Known-object :
      (n : ℕ) (o : ProviderOutcome) (r : Reserved) → Known r.1 → Known (reserve_object id n o r).1
  Known-object n o (declared, t) k = elim (Bool-cases (provider_create_commits o)) [
    | inl e ↦ Known-commit n o (declared, t) e
    | inr e ↦ rw e k
  ]

  Known-objects :
      (n : ℕ) (os : List ProviderOutcome) (r : Reserved)
      → Known r.1
      → Known (reserve_objects id n os r).1
  Known-objects n [] r k = k
  Known-objects n (o ∷ os) r k =
      Known-objects (suc n) os (reserve_object id n o r) (Known-object n o r k)

  pub Known-any :
      (n : ℕ) (os : List ProviderOutcome) (r : Reserved)
      → any provider_create_commits os ≡ true
      → Known (reserve_objects id n os r).1
  Known-any n [] r h = cc
  Known-any n (o ∷ os) r h = elim (Bool-cases (provider_create_commits o)) [
    | inl e ↦ Known-objects (suc n) os (reserve_object id n o r) (Known-commit n o r e)
    | inr e ↦ Known-any (suc n) os (reserve_object id n o r) (ground arith)
  ]

  pub Known-gate :
      (script : ProviderOutcomeScript) (r : Reserved)
      → Known r.1
      → Known (reserve_gate id script r).1
  Known-gate script (declared, t) k = elim (Bool-cases (is_held script)) [
    | inl e ↦ rw e k
    | inr e ↦ rw e k
  ]

  pub Holds-gate :
      (script : ProviderOutcomeScript) (r : Reserved)
      → is_held script ≡ true
      → Holds (reserve_gate id script r).1
  Holds-gate script (declared, t) h = rw h (output_of id gate_output, refl)

pub terminal-commits :
    (script : ProviderOutcomeScript)
    → provider_create_commits (terminal_outcome script) ≡ true
    → any provider_create_commits (outcomes script) ≡ true
terminal-commits script h = ground arith

pub ambiguous-commits :
    (script : ProviderOutcomeScript)
    → has_ambiguous_commit script ≡ true
    → any provider_create_commits (outcomes script) ≡ true
ambiguous-commits script h = ground arith
