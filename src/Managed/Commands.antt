-- ===== src/Managed/Commands.antt =====
-- crates/tiv-stripe-pi/src/lib.rs: the commands of `ManagedFixture`, each of which takes the next number
-- of the command sequence.
use tx_proof.Common.{
  ℕ, Option, none, some, List, [], ◌∷◌, String, Result, ok, err, ℕ_discrete, if◌then◌else◌, lookup,
}
use tx_proof.Fixture.Types.{
  FaultOutcome, PaymentIntentStatus, succeeded, ProviderEvent, FixtureError,
}
use tx_proof.Fixture.Wire.{Libraries, status_text}
use tx_proof.Fixture.Provider.{PaymentIntentFixture, new_fixture}
use tx_proof.Fixture.Confirm.{event_snapshot}
use tx_proof.Managed.State.{
  released, cancelled, HeldWebhookRequestState, HeldWebhookResponseState, ManagedFixture,
  FixtureServiceError, empty_fault_plan, gate_not_found, fixture_failed, FixtureSnapshot, snapshot,
  keys, require_next_sequence, remove_entry, signal, cancel_all,
}

pub record GeneratedEvent : Type 0 where
  pub command_sequence : ℕ
  pub event_id : String
  pub payment_intent_id : String
  pub snapshot_status : String

-- `self.require_next_sequence(command_sequence)?` before the rest of a command
abbrev pub sequenced :
    {A : Type 0}
    → ManagedFixture
    → Result FixtureServiceError Unit
    → Result FixtureServiceError A × ManagedFixture
    → Result FixtureServiceError A × ManagedFixture
sequenced managed (err e) rest = (err e, managed)
sequenced managed (ok passed) rest = rest

abbrev pub reset_checked :
    ManagedFixture
    → ℕ
    → ℕ
    → List FaultOutcome
    → Result FixtureServiceError FixtureSnapshot × ManagedFixture
reset_checked managed command_sequence seed [] = (err empty_fault_plan, managed)
reset_checked managed command_sequence seed (outcome ∷ outcomes) =
    let signals = cancel_all (keys managed.held_webhook_responses) (
      cancel_all (keys managed.held_webhook_requests)
        (cancel_all (keys managed.held_gates) managed.signals)) in
    let next : ManagedFixture = record {
      fixture = new_fixture seed;
      planned_outcomes = outcome ∷ outcomes;
      held_gates = [];
      held_webhook_requests = [];
      held_webhook_responses = [];
      next_gate_sequence = managed.next_gate_sequence;
      command_sequence = command_sequence;
      signals = signals;
    } in
    (ok (snapshot next), next)

unfoldable pub reset :
    ManagedFixture
    → ℕ
    → ℕ
    → List FaultOutcome
    → Result FixtureServiceError FixtureSnapshot × ManagedFixture
reset managed command_sequence seed outcomes =
    sequenced managed (require_next_sequence managed command_sequence)
      (reset_checked managed command_sequence seed outcomes)

abbrev pub release_found :
    ManagedFixture
    → ℕ
    → ℕ
    → Option (Unit {0})
    → Result FixtureServiceError FixtureSnapshot × ManagedFixture
release_found managed command_sequence gate_id none = (err gate_not_found, managed)
release_found managed command_sequence gate_id (some held) =
    let next : ManagedFixture = record managed {
      held_gates = remove_entry gate_id managed.held_gates;
      signals = signal released gate_id managed.signals;
      command_sequence = command_sequence;
    } in
    (ok (snapshot next), next)

unfoldable pub release_gate :
    ManagedFixture → ℕ → ℕ → Result FixtureServiceError FixtureSnapshot × ManagedFixture
release_gate managed command_sequence gate_id =
    sequenced managed (require_next_sequence managed command_sequence) (
      release_found managed command_sequence gate_id (lookup ℕ_discrete managed.held_gates gate_id))

-- The answers of the two discards are the webhook gates that are left.
abbrev pub discard_request_found :
    ManagedFixture
    → ℕ
    → ℕ
    → Option HeldWebhookRequestState
    → Result FixtureServiceError (List (ℕ × HeldWebhookRequestState)) × ManagedFixture
discard_request_found managed command_sequence gate_id none = (err gate_not_found, managed)
discard_request_found managed command_sequence gate_id (some state) =
    let left = remove_entry gate_id managed.held_webhook_requests in
    if state.forwarded
    then (
      ok left,
      record managed {
        held_webhook_requests = left;
        signals = signal cancelled gate_id managed.signals;
        command_sequence = command_sequence;
      },
    )
    else (err gate_not_found, managed)

unfoldable pub discard_webhook_request :
    ManagedFixture
    → ℕ
    → ℕ
    → Result FixtureServiceError (List (ℕ × HeldWebhookRequestState)) × ManagedFixture
discard_webhook_request managed command_sequence gate_id =
    sequenced managed (require_next_sequence managed command_sequence) (
      discard_request_found managed command_sequence gate_id
        (lookup ℕ_discrete managed.held_webhook_requests gate_id))

abbrev pub discard_response_found :
    ManagedFixture
    → ℕ
    → ℕ
    → Option HeldWebhookResponseState
    → Result FixtureServiceError (List (ℕ × HeldWebhookResponseState)) × ManagedFixture
discard_response_found managed command_sequence gate_id none = (err gate_not_found, managed)
discard_response_found managed command_sequence gate_id (some state) =
    let left = remove_entry gate_id managed.held_webhook_responses in
    (
      ok left,
      record managed {
        held_webhook_responses = left;
        signals = signal cancelled gate_id managed.signals;
        command_sequence = command_sequence;
      },
    )

unfoldable pub discard_webhook_response :
    ManagedFixture
    → ℕ
    → ℕ
    → Result FixtureServiceError (List (ℕ × HeldWebhookResponseState)) × ManagedFixture
discard_webhook_response managed command_sequence gate_id =
    sequenced managed (require_next_sequence managed command_sequence) (
      discard_response_found managed command_sequence gate_id
        (lookup ℕ_discrete managed.held_webhook_responses gate_id))

abbrev pub generated :
    ManagedFixture
    → ℕ
    → String
    → PaymentIntentStatus
    → Result FixtureError ProviderEvent × PaymentIntentFixture
    → Result FixtureServiceError GeneratedEvent × ManagedFixture
generated managed command_sequence id status (err e, fixture) =
    (err (fixture_failed e), record managed { fixture = fixture })
generated managed command_sequence id status (ok event, fixture) = (
  ok (record {
    command_sequence = command_sequence;
    event_id = event.id;
    payment_intent_id = id;
    snapshot_status = status_text status;
  }),
  record managed { fixture = fixture; command_sequence = command_sequence },
)

unfoldable pub generate_event_snapshot :
    Libraries
    → ManagedFixture
    → ℕ
    → String
    → PaymentIntentStatus
    → Result FixtureServiceError GeneratedEvent × ManagedFixture
generate_event_snapshot libraries managed command_sequence id status =
    sequenced managed (require_next_sequence managed command_sequence) (
      generated managed command_sequence id status
        (event_snapshot libraries managed.fixture id status))

abbrev pub generate_event :
    Libraries
    → ManagedFixture
    → ℕ
    → String
    → Result FixtureServiceError GeneratedEvent × ManagedFixture
generate_event libraries managed command_sequence id =
    generate_event_snapshot libraries managed command_sequence id succeeded
