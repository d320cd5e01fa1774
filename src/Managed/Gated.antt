-- ===== src/Managed/Gated.antt =====
-- crates/tiv-stripe-pi/src/lib.rs: no operation of `ManagedFixture` leaves a waiter behind.
use tx_proof.Common.{
  ℕ, ◌≢◌, refl, Option, none, some, List, [], ◌∷◌, String, Result, ok, err, Bool-cases, inl, inr,
}
use tx_proof.Fixture.Types.{
  FaultOutcome, PaymentIntentStatus, ProviderEvent, DataPlaneDisposition, DataPlaneResponse,
  FixtureError,
}
use tx_proof.Fixture.Provider.{PaymentIntentFixture}
use tx_proof.Managed.State.{
  pending, released, cancelled, HeldWebhookRequestState, HeldWebhookResponseState, ManagedFixture,
  FixtureServiceError, checked_next, remove_entry, signal, keys, cancel_all,
}
use tx_proof.Managed.Gates.{
  next_gate, next_gate_id, hold_response, manage_disposition, manage_result, forward_found,
  abort_found, hold_answer,
}
use tx_proof.Managed.Commands.{
  sequenced, reset_checked, release_found, discard_request_found, discard_response_found, generated,
}
use tx_proof.Managed.Waiters.{
  IsHeld, HasNoLostWaiter, keys-insert_new, keys-insert_old, keys-remove, cancel_all-pending,
  held-HasNoLostWaiter, left-HasNoLostWaiter,
}

cancelled≢pending : cancelled ≢ pending
cancelled≢pending e = cc

released≢pending : released ≢ pending
released≢pending e = cc

pub next_gate-HasNoLostWaiter :
    (managed : ManagedFixture) (next : Option ℕ)
    → HasNoLostWaiter managed
    → HasNoLostWaiter (next_gate managed next).1
next_gate-HasNoLostWaiter managed none h = h
next_gate-HasNoLostWaiter managed (some gate_id) h = h

hold_response-HasNoLostWaiter :
    (delayed : DataPlaneResponse) (gate : Result FixtureServiceError ℕ × ManagedFixture)
    → HasNoLostWaiter gate.1
    → HasNoLostWaiter (hold_response delayed gate).1
hold_response-HasNoLostWaiter delayed (err e, managed) h = h
hold_response-HasNoLostWaiter delayed (ok gate_id, managed) h =
    held-HasNoLostWaiter managed (hold_response delayed (ok gate_id, managed)).1 gate_id refl
      (inl (keys-insert_new managed.held_gates gate_id tt))
      (λ other held. elim held [
        | inl m ↦ inl (keys-insert_old managed.held_gates gate_id other tt m)
        | inr m ↦ inr m
      ])
      h

pub hold_answer-HasNoLostWaiter :
    (event_id : String) (status : ℕ) (gate : Result FixtureServiceError ℕ × ManagedFixture)
    → HasNoLostWaiter gate.1
    → HasNoLostWaiter (hold_answer event_id status gate).1
hold_answer-HasNoLostWaiter event_id status (err e, managed) h = h
hold_answer-HasNoLostWaiter event_id status (ok gate_id, managed) h =
    let value : HeldWebhookResponseState = record { event_id = event_id; status = status } in
    held-HasNoLostWaiter managed (hold_answer event_id status (ok gate_id, managed)).1 gate_id refl
      (inr (inr (keys-insert_new managed.held_webhook_responses gate_id value)))
      (λ other held. elim held [
        | inl m ↦ inl m
        | inr (inl m) ↦ inr (inl m)
        | inr (inr m) ↦
            inr (inr (keys-insert_old managed.held_webhook_responses gate_id other value m))
      ])
      h

pub forward_found-HasNoLostWaiter :
    (managed : ManagedFixture) (found : Option (ℕ × HeldWebhookRequestState))
    → HasNoLostWaiter managed
    → HasNoLostWaiter (forward_found managed found).1
forward_found-HasNoLostWaiter managed none h = h
forward_found-HasNoLostWaiter managed (some (gate_id, state)) h = λ other waits.
    elim (h other waits) [
      | inl m ↦ inl m
      | inr (inl m) ↦ inr (inl (keys-insert_old managed.held_webhook_requests gate_id other _ m))
      | inr (inr m) ↦ inr (inr m)
    ]

-- A webhook request that is taken out, with its signal cancelled
request_out-IsHeld :
    (managed : ManagedFixture) (gate_id other : ℕ)
    → other ≢ gate_id
    → IsHeld managed other
    → IsHeld
        (record managed {
          held_webhook_requests = remove_entry gate_id managed.held_webhook_requests;
        })
        other
request_out-IsHeld managed gate_id other differs (inl m) = inl m
request_out-IsHeld managed gate_id other differs (inr (inl m)) =
    inr (inl (keys-remove managed.held_webhook_requests gate_id other differs m))
request_out-IsHeld managed gate_id other differs (inr (inr m)) = inr (inr m)

pub abort_found-HasNoLostWaiter :
    (managed : ManagedFixture) (gate_id : ℕ) (found : Option HeldWebhookRequestState)
    → HasNoLostWaiter managed
    → HasNoLostWaiter (abort_found managed gate_id found)
abort_found-HasNoLostWaiter managed gate_id none h = h
abort_found-HasNoLostWaiter managed gate_id (some state) h = elim (Bool-cases state.forwarded) [
  | inl forwarded ↦ rw forwarded h
  | inr waiting ↦ rw waiting (
      left-HasNoLostWaiter managed
        (record managed {
          held_webhook_requests = remove_entry gate_id managed.held_webhook_requests;
          signals = signal cancelled gate_id managed.signals;
        })
        gate_id cancelled cancelled≢pending refl (request_out-IsHeld managed gate_id) h)
]

pub discard_request_found-HasNoLostWaiter :
    (managed : ManagedFixture) (number gate_id : ℕ) (found : Option HeldWebhookRequestState)
    → HasNoLostWaiter managed
    → HasNoLostWaiter (discard_request_found managed number gate_id found).1
discard_request_found-HasNoLostWaiter managed number gate_id none h = h
discard_request_found-HasNoLostWaiter managed number gate_id (some state) h =
    elim (Bool-cases state.forwarded) [
      | inl forwarded ↦ rw forwarded (
          left-HasNoLostWaiter managed
            (record managed {
              held_webhook_requests = remove_entry gate_id managed.held_webhook_requests;
              signals = signal cancelled gate_id managed.signals;
              command_sequence = number;
            })
            gate_id cancelled cancelled≢pending refl (request_out-IsHeld managed gate_id) h)
      | inr waiting ↦ rw waiting h
    ]

pub release_found-HasNoLostWaiter :
    (managed : ManagedFixture) (number gate_id : ℕ) (found : Option (Unit {0}))
    → HasNoLostWaiter managed
    → HasNoLostWaiter (release_found managed number gate_id found).1
release_found-HasNoLostWaiter managed number gate_id none h = h
release_found-HasNoLostWaiter managed number gate_id (some held) h =
    left-HasNoLostWaiter managed (release_found managed number gate_id (some held)).1 gate_id
      released released≢pending refl
      (λ other differs before. elim before [
        | inl m ↦ inl (keys-remove managed.held_gates gate_id other differs m)
        | inr m ↦ inr m
      ])
      h

pub discard_response_found-HasNoLostWaiter :
    (managed : ManagedFixture) (number gate_id : ℕ) (found : Option HeldWebhookResponseState)
    → HasNoLostWaiter managed
    → HasNoLostWaiter (discard_response_found managed number gate_id found).1
discard_response_found-HasNoLostWaiter managed number gate_id none h = h
discard_response_found-HasNoLostWaiter managed number gate_id (some state) h =
    left-HasNoLostWaiter managed (discard_response_found managed number gate_id (some state)).1
      gate_id cancelled cancelled≢pending refl
      (λ other differs before. elim before [
        | inl m ↦ inl m
        | inr (inl m) ↦ inr (inl m)
        | inr (inr m) ↦
            inr (inr (keys-remove managed.held_webhook_responses gate_id other differs m))
      ])
      h

pub reset_checked-HasNoLostWaiter :
    (managed : ManagedFixture) (number seed : ℕ) (outcomes : List FaultOutcome)
    → HasNoLostWaiter managed
    → HasNoLostWaiter (reset_checked managed number seed outcomes).1
reset_checked-HasNoLostWaiter managed number seed [] h = h
reset_checked-HasNoLostWaiter managed number seed (outcome ∷ outcomes) h = λ gate_id waits.
    let requests = cancel_all (keys managed.held_gates) managed.signals in
    let responses = cancel_all (keys managed.held_webhook_requests) requests in
    let (no_response, w) =
      cancel_all-pending (keys managed.held_webhook_responses) responses gate_id waits in
    let (no_request, w') =
      cancel_all-pending (keys managed.held_webhook_requests) requests gate_id w in
    let (no_gate, before) =
      cancel_all-pending (keys managed.held_gates) managed.signals gate_id w' in
    absurd (elim (h gate_id before) [
      | inl m ↦ no_gate m
      | inr (inl m) ↦ no_request m
      | inr (inr m) ↦ no_response m
    ])

manage_disposition-HasNoLostWaiter :
    (managed : ManagedFixture) (disposition : DataPlaneDisposition)
    → HasNoLostWaiter managed
    → HasNoLostWaiter (manage_disposition managed disposition).1
unfolding manage_disposition
manage_disposition-HasNoLostWaiter managed (DataPlaneDisposition.response executed) h = h
manage_disposition-HasNoLostWaiter managed DataPlaneDisposition.close_connection h = h
manage_disposition-HasNoLostWaiter managed (DataPlaneDisposition.delay_response delayed) h =
    hold_response-HasNoLostWaiter delayed (next_gate_id managed)
      (next_gate-HasNoLostWaiter managed (checked_next managed.next_gate_sequence) h)

pub manage_result-HasNoLostWaiter :
    (managed : ManagedFixture)
    (answer : Result FixtureError DataPlaneDisposition × PaymentIntentFixture)
    → HasNoLostWaiter managed
    → HasNoLostWaiter (manage_result managed answer).1
manage_result-HasNoLostWaiter managed (err e, fixture) h = h
manage_result-HasNoLostWaiter managed (ok disposition, fixture) h =
    manage_disposition-HasNoLostWaiter (record managed { fixture = fixture }) disposition h

pub sequenced-HasNoLostWaiter :
    {A : Type 0} (managed : ManagedFixture) (required : Result FixtureServiceError Unit)
    (rest : Result FixtureServiceError A × ManagedFixture)
    → HasNoLostWaiter managed
    → HasNoLostWaiter rest.1
    → HasNoLostWaiter (sequenced managed required rest).1
sequenced-HasNoLostWaiter managed (err e) rest h r = h
sequenced-HasNoLostWaiter managed (ok tt) rest h r = r

pub generated-HasNoLostWaiter :
    (managed : ManagedFixture) (number : ℕ) (id : String) (status : PaymentIntentStatus)
    (found : Result FixtureError ProviderEvent × PaymentIntentFixture)
    → HasNoLostWaiter managed
    → HasNoLostWaiter (generated managed number id status found).1
generated-HasNoLostWaiter managed number id status (err e, fixture) h = h
generated-HasNoLostWaiter managed number id status (ok event, fixture) h = h
