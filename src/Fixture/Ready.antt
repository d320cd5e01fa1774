-- ===== src/Fixture/Ready.antt =====
-- crates/tiv-stripe-pi/src/lib.rs: the steps of a confirmation keep a `PaymentIntentFixture` well formed.
use tx_proof.Common.{
  ℕ, ◌≡◌, refl, sym, subst, false, Option, none, some, List, [], ◌∷◌, any, Result, ok, err, ◌>>=◌,
  Bool-cases, inl, inr, All, All-append,
}
use tx_proof.Fixture.Types.{
  IdempotencyKey, CreatePaymentIntent, FaultOutcome, PaymentIntent, DataPlaneResponse, EventKind,
  kind_created, ProviderEvent, FixtureError,
}
use tx_proof.Fixture.Wire.{Libraries}
use tx_proof.Fixture.Provider.{
  PaymentIntentFixture, IdempotencyEntry, created_intent, execute_found, execute_new, commit_create,
  executed_response, pre_execution_response, is_event_of,
}
use tx_proof.Fixture.Confirm.{ensure_event, push_event, event_wire, new_event_id}
use tx_proof.Fixture.Extends.{Progresses}
use tx_proof.Fixture.Consistent.{
  IsBacked, AreDistinct, IsConsistent, AreBacked-Progresses, AreDistinct-append,
}

pub grown-IsConsistent :
    (before after : PaymentIntentFixture)
    → Progresses before.payment_intents after.payment_intents
    → after.events ≡ before.events
    → IsConsistent before
    → IsConsistent after
grown-IsConsistent before after objects same h = record {
  distinct = subst AreDistinct (sym same) h.distinct;
  backed = subst (All (IsBacked after.payment_intents)) (sym same) (
      AreBacked-Progresses before.payment_intents after.payment_intents before.events objects
        h.backed);
}

commit_create-events :
    (fixture : PaymentIntentFixture) (key : IdempotencyKey) (request : CreatePaymentIntent)
    (outcome : FaultOutcome) (payment_intent : PaymentIntent)
    (result : Result FixtureError DataPlaneResponse)
    → (commit_create fixture key request outcome payment_intent result).1.events ≡ fixture.events
commit_create-events fixture key request outcome payment_intent (ok executed) = refl
commit_create-events fixture key request outcome payment_intent (err e) = refl

-- What an event of the object and the kind needs
abbrev pub Backs : List PaymentIntent → PaymentIntent → EventKind → Type 0
Backs objects payment_intent kind =
    (event : ProviderEvent)
    → event.payment_intent_id ≡ payment_intent.id
    → event.kind ≡ kind
    → IsBacked objects event

-- A fixture after a step, with an object that an event of the kind may have
abbrev pub IsReady : EventKind → Result FixtureError PaymentIntent × PaymentIntentFixture → Type 0
IsReady kind (err e, fixture) = IsConsistent fixture
IsReady kind (ok payment_intent, fixture) =
    IsConsistent fixture × Backs fixture.payment_intents payment_intent kind

module _ (libraries : Libraries) where
  execute_new-events :
      (fixture : PaymentIntentFixture) (key : IdempotencyKey) (request : CreatePaymentIntent)
      (outcome : FaultOutcome) (refused : Option DataPlaneResponse)
      → (execute_new libraries fixture key request outcome refused).1.events ≡ fixture.events
  execute_new-events fixture key request outcome (some refused) = refl
  execute_new-events fixture key request outcome none =
      let payment_intent = created_intent libraries fixture request in
      commit_create-events fixture key request outcome payment_intent
        (executed_response libraries outcome payment_intent)

  pub execute_found-events :
      (fixture : PaymentIntentFixture) (key : IdempotencyKey) (request : CreatePaymentIntent)
      (outcome : FaultOutcome) (found : Option IdempotencyEntry)
      → (execute_found libraries fixture key request outcome found).1.events ≡ fixture.events
  execute_found-events fixture key request outcome (some entry) = refl
  execute_found-events fixture key request outcome none =
      execute_new-events fixture key request outcome (pre_execution_response libraries outcome)

  push_event-IsConsistent :
      (fixture : PaymentIntentFixture) (payment_intent : PaymentIntent) (kind : EventKind)
      (encoded : Option (List ℕ))
      → any (is_event_of payment_intent.id kind) fixture.events ≡ false
      → Backs fixture.payment_intents payment_intent kind
      → IsConsistent fixture
      → IsConsistent (push_event libraries fixture payment_intent kind encoded).1
  push_event-IsConsistent fixture payment_intent kind none absent backs h = h
  push_event-IsConsistent fixture payment_intent kind (some raw_body) absent backs h =
      let event : ProviderEvent = record {
        id = new_event_id libraries fixture;
        kind = kind;
        created = kind_created kind;
        payment_intent_id = payment_intent.id;
        raw_body = raw_body;
      } in
      record {
        distinct = AreDistinct-append fixture.events event h.distinct absent;
        backed =
            All-append (IsBacked fixture.payment_intents) fixture.events (event ∷ []) h.backed
              (backs event refl refl, tt);
      }

  pub ensure_event-IsConsistent :
      (fixture : PaymentIntentFixture) (payment_intent : PaymentIntent) (kind : EventKind)
      → Backs fixture.payment_intents payment_intent kind
      → IsConsistent fixture
      → IsConsistent (ensure_event libraries fixture payment_intent kind).1
  unfolding ensure_event
  ensure_event-IsConsistent fixture payment_intent kind backs h =
      elim (Bool-cases (any (is_event_of payment_intent.id kind) fixture.events)) [
        | inl there ↦ rw there h
        | inr absent ↦ rw absent (
            push_event-IsConsistent fixture payment_intent kind
              (libraries.event_to_vec
                (event_wire (new_event_id libraries fixture) payment_intent kind))
              absent backs h)
      ]

  push_event-objects :
      (fixture : PaymentIntentFixture) (payment_intent : PaymentIntent) (kind : EventKind)
      (encoded : Option (List ℕ))
      → (push_event libraries fixture payment_intent kind encoded).1.payment_intents
        ≡ fixture.payment_intents
  push_event-objects fixture payment_intent kind none = refl
  push_event-objects fixture payment_intent kind (some raw_body) = refl

  pub ensure_event-objects :
      (fixture : PaymentIntentFixture) (payment_intent : PaymentIntent) (kind : EventKind)
      → (ensure_event libraries fixture payment_intent kind).1.payment_intents
        ≡ fixture.payment_intents
  unfolding ensure_event
  ensure_event-objects fixture payment_intent kind =
      elim (Bool-cases (any (is_event_of payment_intent.id kind) fixture.events)) [
        | inl there ↦ rw there refl
        | inr absent ↦ rw absent (
            push_event-objects fixture payment_intent kind (
              libraries.event_to_vec
                (event_wire (new_event_id libraries fixture) payment_intent kind)))
      ]

  pub marked-IsReady :
      (payment_intent : PaymentIntent) (kind : EventKind) (marked : PaymentIntentFixture)
      (ensured : Result FixtureError Unit × PaymentIntentFixture)
      → ensured.1.payment_intents ≡ marked.payment_intents
      → Backs marked.payment_intents payment_intent kind
      → IsConsistent ensured.1
      → IsReady kind (ensured.0 >>= λ _. ok payment_intent, ensured.1)
  marked-IsReady payment_intent kind marked (err e, next) same backs h = h
  marked-IsReady payment_intent kind marked (ok u, next) same backs h =
      (h, λ event e k. subst (λ objects. IsBacked objects event) (sym same) (backs event e k))
