-- ===== src/Managed/State.antt =====
-- crates/tiv-stripe-pi/src/lib.rs: the state of `ManagedFixture`, its gates and its sequence numbers. A
-- signal is shared by a waiter and by the map that holds its gate, and has the identifier of the gate.
use tx_proof.Common.{
  ℕ, ◌+◌, ◌^◌, Bool, not, Option, none, some, List, [], ◌∷◌, length, map, filter, String, Result,
  ok, err, ltb, ◌==◌, ℕ_discrete, if◌then◌else◌, insert_entry,
}
use tx_proof.Fixture.Types.{ℤ, FaultOutcome, PaymentIntent, DataPlaneResponse, FixtureError}
use tx_proof.Fixture.Wire.{operation_text, status_text}
use tx_proof.Fixture.Provider.{PaymentIntentFixture, new_fixture}

pub data GateSignal : Type 0 where
  pending released cancelled : GateSignal

pub record HeldWebhookRequestState : Type 0 where
  pub event_id : String
  pub capability : String
  pub forwarded : Bool

pub record HeldWebhookResponseState : Type 0 where
  pub event_id : String
  pub status : ℕ

-- `held_gates` has the identifiers alone: the value of an entry is the signal.
pub record ManagedFixture : Type 0 where
  pub fixture : PaymentIntentFixture
  pub planned_outcomes : List FaultOutcome
  pub held_gates : List (ℕ × Unit {0})
  pub held_webhook_requests : List (ℕ × HeldWebhookRequestState)
  pub held_webhook_responses : List (ℕ × HeldWebhookResponseState)
  pub next_gate_sequence : ℕ
  pub command_sequence : ℕ
  pub signals : List (ℕ × GateSignal)

pub data FixtureServiceError : Type 0 where
  command_sequence_exhausted empty_fault_plan event_not_found fault_plan_exhausted gate_not_found
        gate_sequence_exhausted invalid_webhook_response_gate invalid_webhook_request_gate :
      FixtureServiceError
  fixture_failed : FixtureError → FixtureServiceError
  unexpected_command_sequence : ℕ → ℕ → FixtureServiceError

pub data ManagedDataPlaneDisposition : Type 0 where
  response : DataPlaneResponse → ManagedDataPlaneDisposition
  close_connection : ManagedDataPlaneDisposition
  held : ℕ → DataPlaneResponse → ManagedDataPlaneDisposition

pub record PaymentIntentSnapshot : Type 0 where
  pub id : String
  pub amount_minor : ℤ
  pub currency : String
  pub status : String
  pub operation_id : Option String

pub record FixtureSnapshot : Type 0 where
  pub command_sequence : ℕ
  pub remaining_outcomes : ℕ
  pub held_gates : List ℕ
  pub payment_intents : List PaymentIntentSnapshot

abbrev pub new_managed : ℕ → ManagedFixture
new_managed seed = record {
  fixture = new_fixture seed;
  planned_outcomes = [];
  held_gates = [];
  held_webhook_requests = [];
  held_webhook_responses = [];
  next_gate_sequence = 0;
  command_sequence = 0;
  signals = [];
}

abbrev pub intent_snapshot : PaymentIntent → PaymentIntentSnapshot
intent_snapshot payment_intent = record {
  id = payment_intent.id;
  amount_minor = payment_intent.amount_minor;
  currency = payment_intent.currency;
  status = status_text payment_intent.status;
  operation_id = operation_text payment_intent.operation_id;
}

abbrev pub keys : {V : Type 0} → List (ℕ × V) → List ℕ
keys [] = []
keys ((key, value) ∷ entries) = key ∷ keys entries

abbrev pub snapshot : ManagedFixture → FixtureSnapshot
snapshot managed = record {
  command_sequence = managed.command_sequence;
  remaining_outcomes = length managed.planned_outcomes;
  held_gates = keys managed.held_gates;
  payment_intents = map intent_snapshot managed.fixture.payment_intents;
}

-- `checked_add(1)` of a `u64`
abbrev pub checked_next : ℕ → Option ℕ
checked_next n = if ltb (n + 1) (2 ^ 64) then some (n + 1) else none

abbrev sequence_after : ℕ → Option ℕ → Result FixtureServiceError Unit
sequence_after received none = err command_sequence_exhausted
sequence_after received (some expected) =
    if received == expected then ok tt else err (unexpected_command_sequence expected received)

unfoldable pub require_next_sequence : ManagedFixture → ℕ → Result FixtureServiceError Unit
require_next_sequence managed received =
    sequence_after received (checked_next managed.command_sequence)

-- `BTreeMap::remove`, with what is left
abbrev pub remove_entry : {V : Type 0} → ℕ → List (ℕ × V) → List (ℕ × V)
remove_entry key entries = filter (λ entry. not (entry.0 == key)) entries

-- Storing a state into the signal of a gate
abbrev pub signal : GateSignal → ℕ → List (ℕ × GateSignal) → List (ℕ × GateSignal)
signal state gate_id signals = insert_entry ℕ_discrete signals gate_id state

-- `cancel` for every gate of a map
abbrev pub cancel_all : List ℕ → List (ℕ × GateSignal) → List (ℕ × GateSignal)
cancel_all [] signals = signals
cancel_all (gate_id ∷ gates) signals = cancel_all gates (signal cancelled gate_id signals)
