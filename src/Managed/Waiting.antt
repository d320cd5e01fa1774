-- ===== src/Managed/Waiting.antt =====
-- crates/tiv-stripe-pi/src/lib.rs: sequences of operations on `ManagedFixture`.
use tx_proof.Common.{
  ℕ, refl, Bool, true, false, not, ◌&&◌, ◌||◌, List, [], ◌∷◌, find?, String, Result, ok, err, leb,
  ℕ_discrete, inl, inr, if◌then◌else◌, lookup,
}
use tx_proof.Fixture.Types.{
  DataPlaneDisposition, FixtureError, IdempotencyKey, CreatePaymentIntent, FaultOutcome,
}
use tx_proof.Fixture.Wire.{Libraries}
use tx_proof.Fixture.Provider.{PaymentIntentFixture, create_data_plane}
use tx_proof.Fixture.Confirm.{confirm_data_plane, event_snapshot}
use tx_proof.Managed.State.{
  ManagedFixture, FixtureServiceError, new_managed, require_next_sequence, checked_next,
}
use tx_proof.Managed.Gates.{
  consume, next_gate_id, create_managed, confirm_managed, prepare_gate,
  prepare_webhook_request_gate, hold_webhook_request_forwarded, has_capability,
  abort_unforwarded_webhook_request, hold_webhook_response, is_empty, is_known_event,
}
use tx_proof.Managed.Commands.{
  reset, release_gate, discard_webhook_request, discard_webhook_response, generate_event_snapshot,
}
use tx_proof.Managed.Sequence.{
  Command, reset_fixture, release, discard_request, discard_response, generate, execute,
}
use tx_proof.Managed.Waiters.{
  HasNoLostWaiter, keys-insert_new, keys-insert_old, held-HasNoLostWaiter,
}
use tx_proof.Managed.Gated.{
  next_gate-HasNoLostWaiter, hold_answer-HasNoLostWaiter, forward_found-HasNoLostWaiter,
  abort_found-HasNoLostWaiter, discard_request_found-HasNoLostWaiter, release_found-HasNoLostWaiter,
  discard_response_found-HasNoLostWaiter, reset_checked-HasNoLostWaiter,
  manage_result-HasNoLostWaiter, sequenced-HasNoLostWaiter, generated-HasNoLostWaiter,
}

pub data ManagedOperation : Type 0 where
  control : Command → ℕ → ManagedOperation
  data_plane_create : IdempotencyKey → CreatePaymentIntent → ManagedOperation
  data_plane_confirm prepare_request forward_request : String → ManagedOperation
  abort_request : ℕ → ManagedOperation
  hold_webhook : String → ℕ → ManagedOperation

either-HasNoLostWaiter :
    {A : Type 0} (test : Bool) (refused allowed : Result FixtureServiceError A × ManagedFixture)
    → HasNoLostWaiter refused.1
    → HasNoLostWaiter allowed.1
    → HasNoLostWaiter (if test then refused else allowed).1
either-HasNoLostWaiter true refused allowed h k = h
either-HasNoLostWaiter false refused allowed h k = k

module _ (libraries : Libraries) (derive_key_hex : String → List ℕ → String) where
  unfoldable pub perform : ManagedOperation → ManagedFixture → ManagedFixture
  perform (control command number) managed = (execute libraries command number managed).1
  perform (data_plane_create key request) managed =
      (create_managed libraries derive_key_hex managed key request).1
  perform (data_plane_confirm id) managed = (confirm_managed libraries derive_key_hex managed id).1
  perform (prepare_request event_id) managed =
      (prepare_webhook_request_gate libraries derive_key_hex managed event_id).1
  perform (forward_request capability) managed =
      (hold_webhook_request_forwarded managed capability).1
  perform (abort_request gate_id) managed = abort_unforwarded_webhook_request managed gate_id
  perform (hold_webhook event_id status) managed = (hold_webhook_response managed event_id status).1

  unfoldable pub perform_all : List ManagedOperation → ManagedFixture → ManagedFixture
  perform_all [] managed = managed
  perform_all (operation ∷ operations) managed = perform_all operations (perform operation managed)

  prepare_gate-HasNoLostWaiter :
      (event_id : String) (gate : Result FixtureServiceError ℕ × ManagedFixture)
      → HasNoLostWaiter gate.1
      → HasNoLostWaiter (prepare_gate libraries derive_key_hex event_id gate).1
  prepare_gate-HasNoLostWaiter event_id (err e, managed) h = h
  prepare_gate-HasNoLostWaiter event_id (ok gate_id, managed) h =
      held-HasNoLostWaiter managed
        (prepare_gate libraries derive_key_hex event_id (ok gate_id, managed)).1 gate_id refl
        (inr (inl (keys-insert_new managed.held_webhook_requests gate_id _)))
        (λ other held. elim held [
          | inl m ↦ inl m
          | inr (inl m) ↦
              inr (inl (keys-insert_old managed.held_webhook_requests gate_id other _ m))
          | inr (inr m) ↦ inr (inr m)
        ])
        h

  execute-HasNoLostWaiter :
      (command : Command) (number : ℕ) (managed : ManagedFixture)
      → HasNoLostWaiter managed
      → HasNoLostWaiter (execute libraries command number managed).1
  unfolding execute reset release_gate discard_webhook_request discard_webhook_response
      generate_event_snapshot
  execute-HasNoLostWaiter (reset_fixture seed outcomes) number managed h =
      sequenced-HasNoLostWaiter managed (require_next_sequence managed number) _ h
        (reset_checked-HasNoLostWaiter managed number seed outcomes h)
  execute-HasNoLostWaiter (release gate_id) number managed h =
      sequenced-HasNoLostWaiter managed (require_next_sequence managed number) _ h (
        release_found-HasNoLostWaiter managed number gate_id
          (lookup ℕ_discrete managed.held_gates gate_id) h)
  execute-HasNoLostWaiter (discard_request gate_id) number managed h =
      sequenced-HasNoLostWaiter managed (require_next_sequence managed number) _ h (
        discard_request_found-HasNoLostWaiter managed number gate_id
          (lookup ℕ_discrete managed.held_webhook_requests gate_id) h)
  execute-HasNoLostWaiter (discard_response gate_id) number managed h =
      sequenced-HasNoLostWaiter managed (require_next_sequence managed number) _ h (
        discard_response_found-HasNoLostWaiter managed number gate_id
          (lookup ℕ_discrete managed.held_webhook_responses gate_id) h)
  execute-HasNoLostWaiter (generate id status) number managed h =
      sequenced-HasNoLostWaiter managed (require_next_sequence managed number) _ h (
        generated-HasNoLostWaiter managed number id status
          (event_snapshot libraries managed.fixture id status) h)

  data_plane-HasNoLostWaiter :
      (managed : ManagedFixture) (outcomes : List FaultOutcome)
      (answer : FaultOutcome → Result FixtureError DataPlaneDisposition × PaymentIntentFixture)
      → HasNoLostWaiter managed
      → HasNoLostWaiter (consume managed outcomes answer).1
  data_plane-HasNoLostWaiter managed [] answer h = h
  data_plane-HasNoLostWaiter managed (outcome ∷ outcomes) answer h =
      manage_result-HasNoLostWaiter (record managed { planned_outcomes = outcomes })
        (answer outcome) h

  perform-HasNoLostWaiter :
      (operation : ManagedOperation) (managed : ManagedFixture)
      → HasNoLostWaiter managed
      → HasNoLostWaiter (perform operation managed)
  unfolding perform create_managed confirm_managed prepare_webhook_request_gate
      hold_webhook_request_forwarded abort_unforwarded_webhook_request hold_webhook_response
  perform-HasNoLostWaiter (control command number) managed h =
      execute-HasNoLostWaiter command number managed h
  perform-HasNoLostWaiter (data_plane_create key request) managed h =
      data_plane-HasNoLostWaiter managed managed.planned_outcomes
        (create_data_plane libraries managed.fixture key request) h
  perform-HasNoLostWaiter (data_plane_confirm id) managed h =
      data_plane-HasNoLostWaiter managed managed.planned_outcomes
        (confirm_data_plane libraries managed.fixture id) h
  perform-HasNoLostWaiter (prepare_request event_id) managed h =
      either-HasNoLostWaiter
        (not (is_empty managed.held_webhook_requests) || not (is_known_event managed event_id)) _ _
        h
        (prepare_gate-HasNoLostWaiter event_id (next_gate_id managed)
          (next_gate-HasNoLostWaiter managed (checked_next managed.next_gate_sequence) h))
  perform-HasNoLostWaiter (forward_request capability) managed h =
      forward_found-HasNoLostWaiter managed
        (find? (has_capability capability) managed.held_webhook_requests) h
  perform-HasNoLostWaiter (abort_request gate_id) managed h =
      abort_found-HasNoLostWaiter managed gate_id
        (lookup ℕ_discrete managed.held_webhook_requests gate_id) h
  perform-HasNoLostWaiter (hold_webhook event_id status) managed h =
      either-HasNoLostWaiter
        (not (is_empty managed.held_webhook_responses)
          || not (leb 100 status && leb status 599)
          || not (is_known_event managed event_id))
        _ _ h
        (hold_answer-HasNoLostWaiter event_id status (next_gate_id managed)
          (next_gate-HasNoLostWaiter managed (checked_next managed.next_gate_sequence) h))

  keeps-HasNoLostWaiter :
      (operations : List ManagedOperation) (managed : ManagedFixture)
      → HasNoLostWaiter managed
      → HasNoLostWaiter (perform_all operations managed)
  unfolding perform_all
  keeps-HasNoLostWaiter [] managed h = h
  keeps-HasNoLostWaiter (operation ∷ operations) managed h =
      keeps-HasNoLostWaiter operations (perform operation managed)
        (perform-HasNoLostWaiter operation managed h)

  -- In every state that operations reach from a new managed fixture, each signal that is still
  -- pending is of a gate that one of the three maps holds: no reset, release, discard or abort
  -- leaves a waiter behind.
  pub perform_all-HasNoLostWaiter :
      (seed : ℕ) (operations : List ManagedOperation)
      → HasNoLostWaiter (perform_all operations (new_managed seed))
  perform_all-HasNoLostWaiter seed operations =
      keeps-HasNoLostWaiter operations (new_managed seed) (λ gate_id waits. cc)
