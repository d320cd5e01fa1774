-- ===== src/Managed/Gates.antt =====
-- crates/tiv-stripe-pi/src/lib.rs: the operations of `ManagedFixture` outside the command sequence:
-- data-plane calls that consume the fault plan, and gates on webhooks. `derive_key_hex` is the keyed hash
-- of `blake3`, of a context and bytes.
use tx_proof.Common.{
  ℕ, Bool, true, false, not, ◌&&◌, ◌||◌, Option, none, some, List, [], ◌∷◌, ◌++◌, any, find?,
  String, string_discrete, Result, ok, err, leb, ℕ_discrete, holds, if◌then◌else◌, lookup,
  insert_entry, to_le_bytes,
}
use tx_proof.Fixture.Types.{
  IdempotencyKey, CreatePaymentIntent, DataPlaneDisposition, DataPlaneResponse, FaultOutcome,
  FixtureError,
}
use tx_proof.Fixture.Wire.{Libraries}
use tx_proof.Fixture.Provider.{PaymentIntentFixture, create_data_plane}
use tx_proof.Fixture.Confirm.{confirm_data_plane}
use tx_proof.Managed.State.{
  pending, cancelled, HeldWebhookRequestState, ManagedFixture, FixtureServiceError,
  fault_plan_exhausted, fixture_failed, gate_sequence_exhausted, invalid_webhook_request_gate,
  invalid_webhook_response_gate, ManagedDataPlaneDisposition, held, checked_next, remove_entry,
  signal,
}

-- `next_gate_id`
abbrev pub next_gate : ManagedFixture → Option ℕ → Result FixtureServiceError ℕ × ManagedFixture
next_gate managed none = (err gate_sequence_exhausted, managed)
next_gate managed (some gate_id) = (ok gate_id, record managed { next_gate_sequence = gate_id })

abbrev pub next_gate_id : ManagedFixture → Result FixtureServiceError ℕ × ManagedFixture
next_gate_id managed = next_gate managed (checked_next managed.next_gate_sequence)

-- `manage_disposition` from the new gate on
abbrev pub hold_response :
    DataPlaneResponse
    → Result FixtureServiceError ℕ × ManagedFixture
    → Result FixtureServiceError ManagedDataPlaneDisposition × ManagedFixture
hold_response delayed (err e, managed) = (err e, managed)
hold_response delayed (ok gate_id, managed) = (
  ok (held gate_id delayed),
  record managed {
    held_gates = insert_entry ℕ_discrete managed.held_gates gate_id tt;
    signals = signal pending gate_id managed.signals;
  },
)

unfoldable pub manage_disposition :
    ManagedFixture
    → DataPlaneDisposition
    → Result FixtureServiceError ManagedDataPlaneDisposition × ManagedFixture
manage_disposition managed (DataPlaneDisposition.response executed) =
    (ok (ManagedDataPlaneDisposition.response executed), managed)
manage_disposition managed DataPlaneDisposition.close_connection =
    (ok ManagedDataPlaneDisposition.close_connection, managed)
manage_disposition managed (DataPlaneDisposition.delay_response delayed) =
    hold_response delayed (next_gate_id managed)

-- What follows the fixture's own answer
abbrev pub manage_result :
    ManagedFixture
    → Result FixtureError DataPlaneDisposition × PaymentIntentFixture
    → Result FixtureServiceError ManagedDataPlaneDisposition × ManagedFixture
manage_result managed (err e, fixture) =
    (err (fixture_failed e), record managed { fixture = fixture })
manage_result managed (ok disposition, fixture) =
    manage_disposition (record managed { fixture = fixture }) disposition

-- `planned_outcomes.pop_front()`, and the call of the fixture with the outcome
abbrev pub consume :
    ManagedFixture
    → List FaultOutcome
    → (FaultOutcome → Result FixtureError DataPlaneDisposition × PaymentIntentFixture)
    → Result FixtureServiceError ManagedDataPlaneDisposition × ManagedFixture
consume managed [] answer = (err fault_plan_exhausted, managed)
consume managed (outcome ∷ outcomes) answer =
    manage_result (record managed { planned_outcomes = outcomes }) (answer outcome)

abbrev pub is_known_event : ManagedFixture → String → Bool
is_known_event managed event_id =
    any (λ event. holds (string_discrete event.id event_id)) managed.fixture.events

abbrev pub is_empty : {A : Type 0} → List A → Bool
is_empty [] = true
is_empty (x ∷ xs) = false

abbrev pub has_capability : String → ℕ × HeldWebhookRequestState → Bool
has_capability capability entry =
    holds (string_discrete entry.1.capability capability) && not entry.1.forwarded

abbrev pub forward_found :
    ManagedFixture
    → Option (ℕ × HeldWebhookRequestState)
    → Result FixtureServiceError ℕ × ManagedFixture
forward_found managed none = (err invalid_webhook_request_gate, managed)
forward_found managed (some (gate_id, state)) = (
  ok gate_id,
  record managed {
    held_webhook_requests =
        insert_entry ℕ_discrete managed.held_webhook_requests gate_id
          (record state { forwarded = true });
  },
)

-- The answer is the gate, whose signal the application waits for.
unfoldable pub hold_webhook_request_forwarded :
    ManagedFixture → String → Result FixtureServiceError ℕ × ManagedFixture
hold_webhook_request_forwarded managed capability =
    forward_found managed (find? (has_capability capability) managed.held_webhook_requests)

abbrev pub abort_found : ManagedFixture → ℕ → Option HeldWebhookRequestState → ManagedFixture
abort_found managed gate_id none = managed
abort_found managed gate_id (some state) = if state.forwarded then managed else record managed {
  held_webhook_requests = remove_entry gate_id managed.held_webhook_requests;
  signals = signal cancelled gate_id managed.signals;
}

unfoldable pub abort_unforwarded_webhook_request : ManagedFixture → ℕ → ManagedFixture
abort_unforwarded_webhook_request managed gate_id =
    abort_found managed gate_id (lookup ℕ_discrete managed.held_webhook_requests gate_id)

abbrev pub hold_answer :
    String
    → ℕ
    → Result FixtureServiceError ℕ × ManagedFixture
    → Result FixtureServiceError ℕ × ManagedFixture
hold_answer event_id status (err e, managed) = (err e, managed)
hold_answer event_id status (ok gate_id, managed) = (
  ok gate_id,
  record managed {
    held_webhook_responses =
        insert_entry ℕ_discrete managed.held_webhook_responses gate_id
          (record { event_id = event_id; status = status });
    signals = signal pending gate_id managed.signals;
  },
)

-- `status` is a `u16`.
unfoldable pub hold_webhook_response :
    ManagedFixture → String → ℕ → Result FixtureServiceError ℕ × ManagedFixture
hold_webhook_response managed event_id status =
    if not (is_empty managed.held_webhook_responses)
      || not (leb 100 status && leb status 599)
      || not (is_known_event managed event_id)
    then (err invalid_webhook_response_gate, managed)
    else hold_answer event_id status (next_gate_id managed)

module _ (libraries : Libraries) (derive_key_hex : String → List ℕ → String) where
  unfoldable pub create_managed :
      ManagedFixture
      → IdempotencyKey
      → CreatePaymentIntent
      → Result FixtureServiceError ManagedDataPlaneDisposition × ManagedFixture
  unfolding manage_disposition
  create_managed managed key request =
      consume managed managed.planned_outcomes
        (create_data_plane libraries managed.fixture key request)

  unfoldable pub confirm_managed :
      ManagedFixture
      → String
      → Result FixtureServiceError ManagedDataPlaneDisposition × ManagedFixture
  unfolding manage_disposition
  confirm_managed managed id =
      consume managed managed.planned_outcomes (confirm_data_plane libraries managed.fixture id)

  abbrev pub webhook_request_capability : ManagedFixture → ℕ → String → String
  webhook_request_capability managed gate_id event_id =
      derive_key_hex "dev.txproof.webhook-ingress-capability.v1" (
        to_le_bytes 8 managed.fixture.seed
        ++ (to_le_bytes 8 gate_id
            ++ (to_le_bytes 8 managed.command_sequence ++ libraries.text_bytes event_id)))

  abbrev pub prepare_gate :
      String
      → Result FixtureServiceError ℕ × ManagedFixture
      → Result FixtureServiceError (ℕ × String) × ManagedFixture
  prepare_gate event_id (err e, managed) = (err e, managed)
  prepare_gate event_id (ok gate_id, managed) =
      let capability = webhook_request_capability managed gate_id event_id in
      (
        ok (gate_id, capability),
        record managed {
          held_webhook_requests =
              insert_entry ℕ_discrete managed.held_webhook_requests gate_id
                (record { event_id = event_id; capability = capability; forwarded = false });
          signals = signal pending gate_id managed.signals;
        },
      )

  unfoldable pub prepare_webhook_request_gate :
      ManagedFixture → String → Result FixtureServiceError (ℕ × String) × ManagedFixture
  prepare_webhook_request_gate managed event_id =
      if not (is_empty managed.held_webhook_requests) || not (is_known_event managed event_id)
      then (err invalid_webhook_request_gate, managed)
      else prepare_gate event_id (next_gate_id managed)
