-- ===== src/Trace/Promised.antt =====
-- crates/tiv-core/src/trace.rs: the sources that each phase of the lifecycle promises.
use tx_proof.Common.{
  ℕ, zero, suc, ◌+◌, ◌%◌, ◌<◌, ◌≡◌, refl, sym, subst, arith, Bool, true, Option, none, some, List,
  wrap8, [], ◌∷◌, length, get_elem?, Result, ok, err, ◌>>=◌, inl, inr, ◌⊎◌, any,
}
use native.Mathlib.Nat.{mod-lt}
use tx_proof.Plan.Types.{
  ProviderOutcome, normal, pre_execute_429, pre_execute_500, post_execute_500, commit_then_close,
  commit_then_delay, ProviderOutcomeScript, terminal_outcome, has_ambiguous_commit, outcomes,
}
use tx_proof.Plan.Model.{
  Phase, checkout_retryable, payment_intent_known, confirm_retryable, confirmed,
}
use tx_proof.Plan.Apply.{provider_create_phase, provider_confirm_phase, create_phase, confirm_phase}
use tx_proof.Trace.Types.{
  CaseOutputRef, CaseActionInput, payment_intent_input, CaseTraceMaterializationError,
}
use tx_proof.Trace.Actions.{
  TraceState, delays_response, provider_create_commits, reserve_objects, reserve_gate,
  reserve_business_provider_outputs, Found, business_found, provider_found, active_input,
  input_from, checked_rem,
}
use tx_proof.Trace.Reserved.{
  Known, Holds, Sourced, Known-any, Known-gate, Holds-gate, terminal-commits, ambiguous-commits,
}

create_phase-Sourced :
    (o : ProviderOutcome) (ambiguous : Bool) (attempts : ℕ) (t : TraceState)
    → (provider_create_commits o ≡ true → Known t)
    → (ambiguous ≡ true → Known t)
    → (delays_response o ≡ true → Holds t)
    → Sourced (create_phase o ambiguous attempts) t
create_phase-Sourced normal ambiguous attempts t k a h = k refl
create_phase-Sourced pre_execute_429 ambiguous attempts t k a h = a
create_phase-Sourced pre_execute_500 ambiguous attempts t k a h = a
create_phase-Sourced post_execute_500 ambiguous attempts t k a h = a
create_phase-Sourced commit_then_close ambiguous attempts t k a h = a
create_phase-Sourced commit_then_delay ambiguous attempts t k a h = (k refl, h refl)

pub business-Sourced :
    (id : ℕ) (script : ProviderOutcomeScript) (t : TraceState) (attempts : ℕ)
    → Sourced (provider_create_phase script attempts) (business_found id script t).state
unfolding reserve_business_provider_outputs
business-Sourced id script t attempts =
    let objects = reserve_objects id 0 (outcomes script) ([], t) in
    let known : any provider_create_commits (outcomes script) ≡ true
        → Known (reserve_gate id script objects).1 =
      λ any. Known-gate id script objects (Known-any id 0 (outcomes script) ([], t) any) in
    create_phase-Sourced (terminal_outcome script) (has_ambiguous_commit script) attempts
      (reserve_gate id script objects).1 (λ h. known (terminal-commits script h))
      (λ h. known (ambiguous-commits script h)) (λ h. Holds-gate id script objects h)

confirm_phase-Sourced :
    (o : ProviderOutcome) (ambiguous : Bool) (attempts : ℕ) (t : TraceState)
    → Known t
    → (delays_response o ≡ true → Holds t)
    → Sourced (confirm_phase o ambiguous attempts) t
confirm_phase-Sourced normal ambiguous attempts t k h = k
confirm_phase-Sourced pre_execute_429 ambiguous attempts t k h = k
confirm_phase-Sourced pre_execute_500 ambiguous attempts t k h = k
confirm_phase-Sourced post_execute_500 ambiguous attempts t k h = k
confirm_phase-Sourced commit_then_close ambiguous attempts t k h = k
confirm_phase-Sourced commit_then_delay ambiguous attempts t k h = (k, h refl)

-- Finding the sources succeeds, and leaves variables that suit the phase.
abbrev pub Finds : Phase → Result CaseTraceMaterializationError Found → Type 0
Finds phase (ok found) = Sourced phase found.state
Finds phase (err error) = ⊥

pub get_elem?-below :
    (xs : List CaseOutputRef) (i : ℕ)
    → i < length xs
    → (x : CaseOutputRef) × (get_elem? xs i ≡ some x)
get_elem?-below [] i h = absurd (omega arith)
get_elem?-below (x ∷ xs) zero h = (x, refl)
get_elem?-below (x ∷ xs) (suc i) h = get_elem?-below xs i (omega arith)

pub checked_rem-pos : (n m : ℕ) → 0 < m → (i : ℕ) × (checked_rem n m ≡ some i) × (i < m)
checked_rem-pos n zero h = absurd (omega arith)
checked_rem-pos n (suc m) h = (n % suc m, ground arith, mod-lt n h)

abbrev pub attempts_after : Phase → ℕ
attempts_after (checkout_retryable attempts _) = wrap8 (attempts + 1)
attempts_after (confirm_retryable attempts _) = wrap8 (attempts + 1)
attempts_after _ = 0

pub Known-phase-Sourced :
    (phase : Phase) (t : TraceState)
    → Known t
    → ((phase ≡ payment_intent_known) ⊎ (phase ≡ confirmed))
    → Sourced phase t
Known-phase-Sourced phase t k (inl e) = subst (λ p. Sourced p t) (sym e) k
Known-phase-Sourced phase t k (inr e) = subst (λ p. Sourced p t) (sym e) k

pub Finds-active :
    (phase : Phase) (id : ℕ) (active : Option CaseOutputRef) (source : CaseOutputRef)
    (rest : CaseActionInput → Result CaseTraceMaterializationError Found)
    → active ≡ some source
    → ((input : CaseActionInput) → Finds phase (rest input))
    → Finds phase (active_input id active >>= rest)
Finds-active phase id none source rest e h = cc
Finds-active phase id (some ref) source rest e h = h (input_from payment_intent_input ref)

pub provider-Finds :
    (id : ℕ) (script : ProviderOutcomeScript) (t : TraceState) (attempts : ℕ) (phase : Phase)
    → Known t
    → phase ≡ provider_confirm_phase script attempts
    → Finds phase (provider_found id script t)
provider-Finds id script t attempts phase known e =
    Finds-active phase id t.active_payment_intent known.0.0 _ known.0.1 (λ input.
      subst (λ p. Sourced p (reserve_gate id script ([], t)).1) (sym e)
        (confirm_phase-Sourced (terminal_outcome script) (has_ambiguous_commit script) attempts
          (reserve_gate id script ([], t)).1 (Known-gate id script ([], t) known)
          (λ h. Holds-gate id script ([], t) h)))
