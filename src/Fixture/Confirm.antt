-- ===== src/Fixture/Confirm.antt =====
-- crates/tiv-stripe-pi/src/lib.rs: `PaymentIntentFixture`, its confirmations, events and lookups.
use tx_proof.Common.{
  ℕ, ◌+◌, ◌%◌, ◌^◌, Option, none, some, List, [], ◌∷◌, ◌++◌, length, any, find?, String, Result, ok,
  err, ◌>>=◌, ok_or, if◌then◌else◌, find_index, set_elem,
}
use tx_proof.Fixture.Types.{
  FaultOutcome, PaymentIntent, PaymentIntentStatus, requires_confirmation, succeeded,
  DataPlaneResponse, json, DataPlaneDisposition, response, EventKind,
  payment_intent_requires_confirmation, payment_intent_succeeded, kind_event_type, kind_status,
  kind_created, ProviderEvent, FixtureError, not_found, serialization,
}
use tx_proof.Fixture.Wire.{EventWire, Libraries, operation_text, payment_intent_json, derived_id}
use tx_proof.Fixture.Provider.{
  PaymentIntentFixture, has_id, is_event_of, is_succeeded, pre_execution_response,
  executed_response, disposition_of,
}

-- The object of an event has the status of the event, not the object's own.
abbrev pub event_wire : String → PaymentIntent → EventKind → EventWire
event_wire event_id payment_intent kind = record {
  id = event_id;
  object = "event";
  created = kind_created kind;
  event_type = kind_event_type kind;
  data_object = record {
    id = payment_intent.id;
    object = "payment_intent";
    amount = payment_intent.amount_minor;
    currency = payment_intent.currency;
    status = kind_status kind;
    metadata_operation_id = operation_text payment_intent.operation_id;
  };
}

abbrev pub kind_of : PaymentIntentStatus → EventKind
kind_of requires_confirmation = payment_intent_requires_confirmation
kind_of succeeded = payment_intent_succeeded

unfoldable pub get : PaymentIntentFixture → String → Result FixtureError PaymentIntent
get fixture id = ok_or (find? (has_id id) fixture.payment_intents) not_found

module _ (libraries : Libraries) where
  abbrev pub new_event_id : PaymentIntentFixture → String
  new_event_id fixture =
      derived_id libraries fixture.seed "provider-event-id" "evt_tiv_"
        ((length fixture.events % 2 ^ 64 + 1) % 2 ^ 64)

  abbrev pub push_event :
      PaymentIntentFixture
      → PaymentIntent
      → EventKind
      → Option (List ℕ)
      → Result FixtureError Unit × PaymentIntentFixture
  push_event fixture payment_intent kind none = (err serialization, fixture)
  push_event fixture payment_intent kind (some raw_body) =
      let event : ProviderEvent = record {
        id = new_event_id fixture;
        kind = kind;
        created = kind_created kind;
        payment_intent_id = payment_intent.id;
        raw_body = raw_body;
      } in
      (ok tt, record fixture { events = fixture.events ++ event ∷ [] })

  -- `payment_intent` is `self.payment_intents[index]`
  unfoldable pub ensure_event :
      PaymentIntentFixture
      → PaymentIntent
      → EventKind
      → Result FixtureError Unit × PaymentIntentFixture
  ensure_event fixture payment_intent kind =
      if any (is_event_of payment_intent.id kind) fixture.events
      then (ok tt, fixture)
      else push_event fixture payment_intent kind
          (libraries.event_to_vec (event_wire (new_event_id fixture) payment_intent kind))

  -- `confirm` from the index on
  abbrev pub confirm_found :
      PaymentIntentFixture
      → Option (ℕ × PaymentIntent)
      → Result FixtureError PaymentIntent × PaymentIntentFixture
  confirm_found fixture none = (err not_found, fixture)
  confirm_found fixture (some (index, payment_intent)) =
      let confirmed : PaymentIntent = record payment_intent { status = succeeded } in
      let marked : PaymentIntentFixture = record fixture {
        payment_intents = set_elem fixture.payment_intents index confirmed;
      } in
      let (result, next) = ensure_event marked confirmed payment_intent_succeeded in
      if is_succeeded payment_intent.status
      then (ok payment_intent, fixture)
      else (result >>= λ _. ok confirmed, next)

  unfoldable pub confirm :
      PaymentIntentFixture → String → Result FixtureError PaymentIntent × PaymentIntentFixture
  unfolding ensure_event
  confirm fixture id = confirm_found fixture (find_index (has_id id) fixture.payment_intents)

  -- `event_snapshot` from the object at the index on, for a confirmation where there is one
  abbrev pub snapshot_found :
      String
      → EventKind
      → Result FixtureError PaymentIntent × PaymentIntentFixture
      → Result FixtureError ProviderEvent × PaymentIntentFixture
  snapshot_found id kind (err e, fixture) = (err e, fixture)
  snapshot_found id kind (ok payment_intent, fixture) =
      let (result, next) = ensure_event fixture payment_intent kind in
      (result >>= λ _. ok_or (find? (is_event_of id kind) next.events) not_found, next)

  abbrev pub snapshot_at :
      PaymentIntentFixture
      → String
      → PaymentIntentStatus
      → Option (ℕ × PaymentIntent)
      → Result FixtureError PaymentIntent × PaymentIntentFixture
  snapshot_at fixture id status none = (err not_found, fixture)
  snapshot_at fixture id requires_confirmation (some (index, payment_intent)) =
      (ok payment_intent, fixture)
  snapshot_at fixture id succeeded (some found) = confirm fixture id

  unfoldable pub event_snapshot :
      PaymentIntentFixture
      → String
      → PaymentIntentStatus
      → Result FixtureError ProviderEvent × PaymentIntentFixture
  unfolding ensure_event confirm
  event_snapshot fixture id status =
      snapshot_found id (kind_of status)
        (snapshot_at fixture id status (find_index (has_id id) fixture.payment_intents))

  -- The response of a confirmation that was executed
  abbrev pub confirm_response :
      FaultOutcome
      → Result FixtureError PaymentIntent × PaymentIntentFixture
      → Result FixtureError DataPlaneDisposition × PaymentIntentFixture
  confirm_response outcome (result, next) = (
    result >>= λ payment_intent. executed_response libraries outcome payment_intent >>= λ executed.
        ok (disposition_of outcome executed),
    next,
  )

  abbrev pub confirm_unless :
      PaymentIntentFixture
      → String
      → FaultOutcome
      → Option DataPlaneResponse
      → Result FixtureError DataPlaneDisposition × PaymentIntentFixture
  confirm_unless fixture id outcome (some refused) = (ok (response refused), fixture)
  confirm_unless fixture id outcome none = confirm_response outcome (confirm fixture id)

  unfoldable pub confirm_data_plane :
      PaymentIntentFixture
      → String
      → FaultOutcome
      → Result FixtureError DataPlaneDisposition × PaymentIntentFixture
  confirm_data_plane fixture id outcome =
      confirm_unless fixture id outcome (pre_execution_response libraries outcome)

  unfoldable pub retrieve_data_plane :
      PaymentIntentFixture → String → Result FixtureError DataPlaneResponse
  unfolding get
  retrieve_data_plane fixture id = get fixture id >>= λ payment_intent.
      payment_intent_json libraries payment_intent >>= λ raw_body. ok (json 200 raw_body)
