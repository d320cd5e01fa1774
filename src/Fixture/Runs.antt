-- ===== src/Fixture/Runs.antt =====
-- crates/tiv-stripe-pi/src/lib.rs: sequences of operations on a `PaymentIntentFixture`.
use tx_proof.Common.{
  ℕ, ◌≡◌, refl, Option, none, some, List, [], ◌∷◌, any, String, Result, ok, err, Bool-cases, inl,
  inr, find_index, set_elem, lookup, lookup-insert_new,
}
use tx_proof.Fixture.Types.{
  IdempotencyKey, CreatePaymentIntent, FaultOutcome, PaymentIntent, PaymentIntentStatus, succeeded,
  requires_confirmation, DataPlaneResponse, EventKind, payment_intent_succeeded, FixtureError,
  key_discrete,
}
use tx_proof.Fixture.Wire.{Libraries}
use tx_proof.Fixture.Provider.{
  PaymentIntentFixture, IdempotencyEntry, execute_create, created_intent, execute_found,
  execute_new, commit_create, executed_response, pre_execution_response, has_id, is_succeeded,
  is_event_of,
}
use tx_proof.Fixture.Confirm.{
  ensure_event, push_event, event_wire, new_event_id, confirm, confirm_found, event_snapshot,
  confirm_unless, snapshot_found, snapshot_at, kind_of, confirm_data_plane,
}
use tx_proof.Fixture.Extends.{
  confirmed, Extends, append_nil, Progresses-refl, Progresses-append, Progresses-set_elem,
  Extends-refl, Extends-trans,
}

pub data Operation : Type 0 where
  creation : IdempotencyKey → CreatePaymentIntent → FaultOutcome → Operation
  confirmation : String → FaultOutcome → Operation
  event_request : String → PaymentIntentStatus → Operation

module _ (libraries : Libraries) where
  unfoldable pub operate : Operation → PaymentIntentFixture → PaymentIntentFixture
  operate (creation key request outcome) fixture =
      (execute_create libraries fixture key request outcome).1
  operate (confirmation id outcome) fixture = (confirm_data_plane libraries fixture id outcome).1
  operate (event_request id status) fixture = (event_snapshot libraries fixture id status).1

  unfoldable pub run : List Operation → PaymentIntentFixture → PaymentIntentFixture
  run [] fixture = fixture
  run (operation ∷ operations) fixture = run operations (operate operation fixture)

  push_event-Extends :
      (fixture : PaymentIntentFixture) (payment_intent : PaymentIntent) (kind : EventKind)
      (encoded : Option (List ℕ))
      → Extends fixture (push_event libraries fixture payment_intent kind encoded).1
  push_event-Extends fixture payment_intent kind none = Extends-refl fixture
  push_event-Extends fixture payment_intent kind (some raw_body) = record {
    seed = refl;
    objects = Progresses-refl fixture.payment_intents;
    events = (_, refl);
    entries = λ key entry h. h;
  }

  pub ensure_event-Extends :
      (fixture : PaymentIntentFixture) (payment_intent : PaymentIntent) (kind : EventKind)
      → Extends fixture (ensure_event libraries fixture payment_intent kind).1
  unfolding ensure_event
  ensure_event-Extends fixture payment_intent kind =
      elim (Bool-cases (any (is_event_of payment_intent.id kind) fixture.events)) [
        | inl there ↦ rw there (Extends-refl fixture)
        | inr absent ↦ rw absent (
            push_event-Extends fixture payment_intent kind (
              libraries.event_to_vec
                (event_wire (new_event_id libraries fixture) payment_intent kind)))
      ]

  commit_create-Extends :
      (fixture : PaymentIntentFixture) (key : IdempotencyKey) (request : CreatePaymentIntent)
      (outcome : FaultOutcome) (payment_intent : PaymentIntent)
      (result : Result FixtureError DataPlaneResponse)
      → lookup key_discrete fixture.idempotency key ≡ none
      → Extends fixture (commit_create fixture key request outcome payment_intent result).1
  commit_create-Extends fixture key request outcome payment_intent (err e) fresh = record {
    seed = refl;
    objects = Progresses-append fixture.payment_intents (payment_intent ∷ []);
    events = ([], append_nil fixture.events);
    entries = λ key entry h. h;
  }
  commit_create-Extends fixture key request outcome payment_intent (ok executed) fresh = record {
    seed = refl;
    objects = Progresses-append fixture.payment_intents (payment_intent ∷ []);
    events = ([], append_nil fixture.events);
    entries = λ old entry h.
        lookup-insert_new key_discrete fixture.idempotency old key entry
          (record { request = request; payment_intent = payment_intent; cached = executed }) fresh
          h;
  }

  execute_found-Extends :
      (fixture : PaymentIntentFixture) (key : IdempotencyKey) (request : CreatePaymentIntent)
      (outcome : FaultOutcome) (found : Option IdempotencyEntry)
      → lookup key_discrete fixture.idempotency key ≡ found
      → Extends fixture (execute_found libraries fixture key request outcome found).1
  execute_found-Extends fixture key request outcome (some entry) h = Extends-refl fixture
  execute_found-Extends fixture key request outcome none h =
      new_create (pre_execution_response libraries outcome)
    where
      new_create :
          (refused : Option DataPlaneResponse)
          → Extends fixture (execute_new libraries fixture key request outcome refused).1
      new_create (some refused) = Extends-refl fixture
      new_create none =
          let payment_intent = created_intent libraries fixture request in
          commit_create-Extends fixture key request outcome payment_intent
            (executed_response libraries outcome payment_intent) h

  pub execute_create-Extends :
      (fixture : PaymentIntentFixture) (key : IdempotencyKey) (request : CreatePaymentIntent)
      (outcome : FaultOutcome)
      → Extends fixture (execute_create libraries fixture key request outcome).1
  unfolding execute_create
  execute_create-Extends fixture key request outcome =
      execute_found-Extends fixture key request outcome
        (lookup key_discrete fixture.idempotency key) refl

  pub mark-Extends :
      (fixture : PaymentIntentFixture) (id : String) (index : ℕ) (payment_intent : PaymentIntent)
      → find_index (has_id id) fixture.payment_intents ≡ some (index, payment_intent)
      → Extends fixture (record fixture {
        payment_intents = set_elem fixture.payment_intents index (confirmed payment_intent);
      })
  mark-Extends fixture id index payment_intent h = record {
    seed = refl;
    objects = Progresses-set_elem (has_id id) fixture.payment_intents index payment_intent h;
    events = ([], append_nil fixture.events);
    entries = λ key entry e. e;
  }

  confirm_found-Extends :
      (fixture : PaymentIntentFixture) (id : String) (found : Option (ℕ × PaymentIntent))
      → find_index (has_id id) fixture.payment_intents ≡ found
      → Extends fixture (confirm_found libraries fixture found).1
  unfolding ensure_event
  confirm_found-Extends fixture id none h = Extends-refl fixture
  confirm_found-Extends fixture id (some (index, payment_intent)) h =
      elim (Bool-cases (is_succeeded payment_intent.status)) [
        | inl already ↦ rw already (Extends-refl fixture)
        | inr pending ↦
            let marked : PaymentIntentFixture = record fixture {
              payment_intents = set_elem fixture.payment_intents index (confirmed payment_intent);
            } in
            rw pending (
              Extends-trans fixture marked
                (ensure_event libraries marked (confirmed payment_intent)
                  payment_intent_succeeded).1
                (mark-Extends fixture id index payment_intent h)
                (ensure_event-Extends marked (confirmed payment_intent) payment_intent_succeeded))
      ]

  pub confirm-Extends :
      (fixture : PaymentIntentFixture) (id : String)
      → Extends fixture (confirm libraries fixture id).1
  unfolding confirm
  confirm-Extends fixture id =
      confirm_found-Extends fixture id (find_index (has_id id) fixture.payment_intents) refl

  snapshot_found-Extends :
      (fixture : PaymentIntentFixture) (id : String) (kind : EventKind)
      (found : Result FixtureError PaymentIntent × PaymentIntentFixture)
      → Extends fixture found.1
      → Extends fixture (snapshot_found libraries id kind found).1
  snapshot_found-Extends fixture id kind (err e, next) h = h
  snapshot_found-Extends fixture id kind (ok payment_intent, next) h =
      Extends-trans fixture next (ensure_event libraries next payment_intent kind).1 h
        (ensure_event-Extends next payment_intent kind)

  snapshot_at-Extends :
      (fixture : PaymentIntentFixture) (id : String) (status : PaymentIntentStatus)
      (found : Option (ℕ × PaymentIntent))
      → Extends fixture (snapshot_at libraries fixture id status found).1
  snapshot_at-Extends fixture id status none = Extends-refl fixture
  snapshot_at-Extends fixture id requires_confirmation (some found) = Extends-refl fixture
  snapshot_at-Extends fixture id succeeded (some found) = confirm-Extends fixture id

  confirm_data_plane-Extends :
      (fixture : PaymentIntentFixture) (id : String) (outcome : FaultOutcome)
      → Extends fixture (confirm_data_plane libraries fixture id outcome).1
  unfolding confirm_data_plane
  confirm_data_plane-Extends fixture id outcome = unless (pre_execution_response libraries outcome)
    where
      unless :
          (refused : Option DataPlaneResponse)
          → Extends fixture (confirm_unless libraries fixture id outcome refused).1
      unless (some refused) = Extends-refl fixture
      unless none = confirm-Extends fixture id

  operate-Extends :
      (operation : Operation) (fixture : PaymentIntentFixture)
      → Extends fixture (operate operation fixture)
  unfolding operate event_snapshot
  operate-Extends (creation key request outcome) fixture =
      execute_create-Extends fixture key request outcome
  operate-Extends (confirmation id outcome) fixture = confirm_data_plane-Extends fixture id outcome
  operate-Extends (event_request id status) fixture =
      snapshot_found-Extends fixture id (kind_of status)
        (snapshot_at libraries fixture id status (find_index (has_id id) fixture.payment_intents))
        (snapshot_at-Extends fixture id status (find_index (has_id id) fixture.payment_intents))

  -- No sequence of creates, confirmations and event requests, whatever faults are injected, changes
  -- or removes an event or a cached create, or an object but for its confirmation.
  pub run-Extends :
      (operations : List Operation) (fixture : PaymentIntentFixture)
      → Extends fixture (run operations fixture)
  unfolding run
  run-Extends [] fixture = Extends-refl fixture
  run-Extends (operation ∷ operations) fixture =
      Extends-trans fixture (operate operation fixture) (run operations (operate operation fixture))
        (operate-Extends operation fixture) (run-Extends operations (operate operation fixture))
