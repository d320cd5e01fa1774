-- ===== src/Trace/Phases.antt =====
-- crates/tiv-core/src/trace.rs: what each action does to the sources that its phase promises.
use tx_proof.Common.{ℕ, ◌+◌, ◌≡◌, sym, subst, arith, none, some, length, ◌⊎◌}
use tx_proof.Plan.Types.{
  PlanActionKind, drive_checkout, retry_business_request, confirm_payment_intent,
  retry_provider_request, retrieve_payment_intent, generate_provider_event, deliver_webhook,
  duplicate_webhook, delay_webhook, reorder_webhooks, drop_webhook, restart_and_await_health,
  wait_for_quiescence, check_checkpoint, release_provider_gate, kill_application,
  ProviderOutcomeScript,
}
use tx_proof.Plan.Spec.{PlanSpec}
use tx_proof.Plan.Model.{payment_intent_known, confirmed, ModelState}
use tx_proof.Plan.Apply.{apply_action, advance, provider_create_phase, provider_confirm_phase}
use tx_proof.Plan.Guards.{Permits}
use tx_proof.Trace.Actions.{TraceState, find_sources, business_found}
use tx_proof.Trace.Reserved.{Known, Holds, Sourced}
use tx_proof.Trace.Promised.{
  business-Sourced, Finds, get_elem?-below, checked_rem-pos, attempts_after, Known-phase-Sourced,
  Finds-active, provider-Finds,
}

-- What each action that has effects here does to the phase, and what the phase says before it.
module _ (spec : PlanSpec) (state next : ModelState) (t : TraceState)
    (s : Sourced state.phase t) where
  drive-phase :
      (script : ProviderOutcomeScript)
      → Permits spec state (drive_checkout script)
      → apply_action state (drive_checkout script) ≡ some next
      → next.phase ≡ provider_create_phase script 0
  unfolding apply_action advance
  drive-phase script p e = ground arith

  retry-phase :
      (script : ProviderOutcomeScript)
      → Permits spec state (retry_business_request script)
      → apply_action state (retry_business_request script) ≡ some next
      → next.phase ≡ provider_create_phase script (attempts_after state.phase)
  unfolding apply_action advance
  retry-phase script p e = ground arith

  confirm-phase :
      (script : ProviderOutcomeScript)
      → Permits spec state (confirm_payment_intent script)
      → apply_action state (confirm_payment_intent script) ≡ some next
      → Known t × (next.phase ≡ provider_confirm_phase script 0)
  unfolding apply_action advance
  confirm-phase script p e = ground arith

  retry_provider-phase :
      (script : ProviderOutcomeScript)
      → Permits spec state (retry_provider_request script)
      → apply_action state (retry_provider_request script) ≡ some next
      → Known t × (next.phase ≡ provider_confirm_phase script (attempts_after state.phase))
  unfolding apply_action advance
  retry_provider-phase script p e = ground arith

  retrieve-phase :
      Permits spec state retrieve_payment_intent
      → apply_action state retrieve_payment_intent ≡ some next
      → Known t × ((next.phase ≡ payment_intent_known) ⊎ (next.phase ≡ confirmed))
  unfolding apply_action advance
  retrieve-phase p e = ground arith

  release-phase :
      Permits spec state release_provider_gate
      → apply_action state release_provider_gate ≡ some next
      → Known t × Holds t × ((next.phase ≡ payment_intent_known) ⊎ (next.phase ≡ confirmed))
  unfolding apply_action advance
  release-phase p e = ground arith

  generate-phase :
      Permits spec state generate_provider_event
      → apply_action state generate_provider_event ≡ some next
      → Known t × ((t' : TraceState) → Known t' → Sourced next.phase t')
  unfolding apply_action advance
  generate-phase p e = (ground arith, λ t' k. ground arith)

  -- An action without dynamic inputs or outputs leaves what the phase says.
  abbrev IsPlain : PlanActionKind → Type 0
  IsPlain (drive_checkout _) = ⊥
  IsPlain (retry_business_request _) = ⊥
  IsPlain (confirm_payment_intent _) = ⊥
  IsPlain (retry_provider_request _) = ⊥
  IsPlain retrieve_payment_intent = ⊥
  IsPlain release_provider_gate = ⊥
  IsPlain generate_provider_event = ⊥
  IsPlain _ = Unit

  plain-phase :
      (action : PlanActionKind)
      → IsPlain action
      → Permits spec state action
      → apply_action state action ≡ some next
      → Sourced next.phase t
  unfolding apply_action advance
  plain-phase action plain p e = ground arith

  module _ (id : ℕ) where
    pub find_sources-Finds :
        (action : PlanActionKind)
        → Permits spec state action
        → apply_action state action ≡ some next
        → Finds next.phase (find_sources id action t)
    find_sources-Finds (drive_checkout script) p e =
        subst (λ phase. Sourced phase (business_found id script t).state)
          (sym (drive-phase script p e)) (business-Sourced id script t 0)
    find_sources-Finds (retry_business_request script) p e =
        subst (λ phase. Sourced phase (business_found id script t).state)
          (sym (retry-phase script p e)) (business-Sourced id script t (attempts_after state.phase))
    find_sources-Finds (confirm_payment_intent script) p e =
        let (known, phase) = confirm-phase script p e in
        provider-Finds id script t 0 next.phase known phase
    find_sources-Finds (retry_provider_request script) p e =
        let (known, phase) = retry_provider-phase script p e in
        provider-Finds id script t (attempts_after state.phase) next.phase known phase
    find_sources-Finds retrieve_payment_intent p e =
        let (known, phase) = retrieve-phase p e in
        Finds-active next.phase id t.active_payment_intent known.0.0 _ known.0.1
          (λ input. Known-phase-Sourced next.phase t known phase)
    find_sources-Finds release_provider_gate p e =
        let (known, held, phase) = release-phase p e in
        rw held.1
          (Known-phase-Sourced next.phase (record t { held_provider_gate = none }) known phase)
    find_sources-Finds generate_provider_event p e =
        let (known, keeps) = generate-phase p e in
        let (index, found, low) =
          checked_rem-pos t.generated_provider_events (length t.provider_objects) known.1 in
        let (source, at) = get_elem?-below t.provider_objects index low in
        rw (found, at)
          (keeps (record t { generated_provider_events = t.generated_provider_events + 1 }) known)
    find_sources-Finds deliver_webhook p e = plain-phase deliver_webhook tt p e
    find_sources-Finds duplicate_webhook p e = plain-phase duplicate_webhook tt p e
    find_sources-Finds (delay_webhook milliseconds) p e =
        plain-phase (delay_webhook milliseconds) tt p e
    find_sources-Finds reorder_webhooks p e = plain-phase reorder_webhooks tt p e
    find_sources-Finds drop_webhook p e = plain-phase drop_webhook tt p e
    find_sources-Finds (kill_application cut_point) p e =
        plain-phase (kill_application cut_point) tt p e
    find_sources-Finds restart_and_await_health p e = plain-phase restart_and_await_health tt p e
    find_sources-Finds wait_for_quiescence p e = plain-phase wait_for_quiescence tt p e
    find_sources-Finds (check_checkpoint checkpoint) p e =
        plain-phase (check_checkpoint checkpoint) tt p e
