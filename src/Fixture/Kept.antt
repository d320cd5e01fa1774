-- ===== src/Fixture/Kept.antt =====
-- crates/tiv-stripe-pi/src/lib.rs: every operation keeps a `PaymentIntentFixture` well formed.
use tx_proof.Common.{
  ℕ, ◌≡◌, refl, true, Option, none, some, List, [], ◌∷◌, String, Result, ok, err, Bool-cases, inl,
  inr, find_index, set_elem, lookup,
}
use tx_proof.Fixture.Types.{
  FaultOutcome, PaymentIntent, PaymentIntentStatus, succeeded, requires_confirmation,
  DataPlaneResponse, EventKind, payment_intent_succeeded, FixtureError, key_discrete,
}
use tx_proof.Fixture.Wire.{Libraries}
use tx_proof.Fixture.Provider.{
  PaymentIntentFixture, execute_create, pre_execution_response, has_id, is_succeeded, new_fixture,
}
use tx_proof.Fixture.Confirm.{
  ensure_event, confirm, confirm_found, event_snapshot, confirm_unless, snapshot_found, snapshot_at,
  kind_of, confirm_data_plane,
}
use tx_proof.Fixture.Extends.{confirmed}
use tx_proof.Fixture.Runs.{
  Operation, creation, confirmation, event_request, operate, run, execute_create-Extends,
  mark-Extends,
}
use tx_proof.Fixture.Consistent.{IsConsistent, IsBacked-find_index, IsBacked-set_elem}
use tx_proof.Fixture.Ready.{
  Backs, IsReady, grown-IsConsistent, execute_found-events, ensure_event-IsConsistent,
  ensure_event-objects, marked-IsReady,
}

module _ (libraries : Libraries) where
  confirm_found-IsReady :
      (fixture : PaymentIntentFixture) (id : String) (found : Option (ℕ × PaymentIntent))
      → find_index (has_id id) fixture.payment_intents ≡ found
      → IsConsistent fixture
      → IsReady payment_intent_succeeded (confirm_found libraries fixture found)
  confirm_found-IsReady fixture id none h c = c
  confirm_found-IsReady fixture id (some (index, payment_intent)) h c =
      elim (Bool-cases (is_succeeded payment_intent.status)) [
        | inl already ↦ rw already (
          c,
          λ event same kind.
              IsBacked-find_index id fixture.payment_intents index payment_intent event h same
                (λ s. succeeded-status payment_intent.status already),
        )
        | inr pending ↦
            let marked : PaymentIntentFixture = record fixture {
              payment_intents = set_elem fixture.payment_intents index (confirmed payment_intent);
            } in
            let backs : Backs marked.payment_intents (confirmed payment_intent)
                payment_intent_succeeded =
              λ event same kind.
                IsBacked-set_elem id fixture.payment_intents index payment_intent event h same in
            let consistent =
              grown-IsConsistent fixture marked
                (mark-Extends libraries fixture id index payment_intent h).objects refl c in
            rw pending (
              marked-IsReady libraries (confirmed payment_intent) payment_intent_succeeded marked
                (ensure_event libraries marked (confirmed payment_intent) payment_intent_succeeded)
                (ensure_event-objects libraries marked (confirmed payment_intent)
                  payment_intent_succeeded)
                backs
                (ensure_event-IsConsistent libraries marked (confirmed payment_intent)
                  payment_intent_succeeded backs consistent))
      ]
    where
      succeeded-status :
          (status : PaymentIntentStatus) → is_succeeded status ≡ true → status ≡ succeeded
      succeeded-status requires_confirmation e = cc
      succeeded-status succeeded e = refl

  confirm-IsReady :
      (fixture : PaymentIntentFixture) (id : String)
      → IsConsistent fixture
      → IsReady payment_intent_succeeded (confirm libraries fixture id)
  unfolding confirm
  confirm-IsReady fixture id h =
      confirm_found-IsReady fixture id (find_index (has_id id) fixture.payment_intents) refl h

  snapshot_at-IsReady :
      (fixture : PaymentIntentFixture) (id : String) (status : PaymentIntentStatus)
      (found : Option (ℕ × PaymentIntent))
      → find_index (has_id id) fixture.payment_intents ≡ found
      → IsConsistent fixture
      → IsReady (kind_of status) (snapshot_at libraries fixture id status found)
  snapshot_at-IsReady fixture id status none h c = c
  snapshot_at-IsReady fixture id requires_confirmation (some (index, payment_intent)) h c = (
    c,
    λ event same kind.
        IsBacked-find_index id fixture.payment_intents index payment_intent event h same (λ s. cc),
  )
  snapshot_at-IsReady fixture id succeeded (some found) h c = confirm-IsReady fixture id c

  snapshot_found-IsConsistent :
      (id : String) (kind : EventKind)
      (found : Result FixtureError PaymentIntent × PaymentIntentFixture)
      → IsReady kind found
      → IsConsistent (snapshot_found libraries id kind found).1
  snapshot_found-IsConsistent id kind (err e, fixture) h = h
  snapshot_found-IsConsistent id kind (ok payment_intent, fixture) h =
      ensure_event-IsConsistent libraries fixture payment_intent kind h.1 h.0

  IsReady-IsConsistent :
      (kind : EventKind) (found : Result FixtureError PaymentIntent × PaymentIntentFixture)
      → IsReady kind found
      → IsConsistent found.1
  IsReady-IsConsistent kind (err e, fixture) h = h
  IsReady-IsConsistent kind (ok payment_intent, fixture) h = h.0

  confirm_unless-IsConsistent :
      (fixture : PaymentIntentFixture) (id : String) (outcome : FaultOutcome)
      (refused : Option DataPlaneResponse)
      → IsConsistent fixture
      → IsConsistent (confirm_unless libraries fixture id outcome refused).1
  confirm_unless-IsConsistent fixture id outcome (some refused) h = h
  confirm_unless-IsConsistent fixture id outcome none h =
      IsReady-IsConsistent payment_intent_succeeded (confirm libraries fixture id)
        (confirm-IsReady fixture id h)

  operate-IsConsistent :
      (operation : Operation) (fixture : PaymentIntentFixture)
      → IsConsistent fixture
      → IsConsistent (operate libraries operation fixture)
  unfolding operate execute_create event_snapshot confirm_data_plane
  operate-IsConsistent (creation key request outcome) fixture h =
      grown-IsConsistent fixture (execute_create libraries fixture key request outcome).1
        (execute_create-Extends libraries fixture key request outcome).objects
        (execute_found-events libraries fixture key request outcome
          (lookup key_discrete fixture.idempotency key))
        h
  operate-IsConsistent (confirmation id outcome) fixture h =
      confirm_unless-IsConsistent fixture id outcome (pre_execution_response libraries outcome) h
  operate-IsConsistent (event_request id status) fixture h =
      snapshot_found-IsConsistent id (kind_of status)
        (snapshot_at libraries fixture id status (find_index (has_id id) fixture.payment_intents))
        (snapshot_at-IsReady fixture id status (find_index (has_id id) fixture.payment_intents) refl
          h)

  keeps-IsConsistent :
      (operations : List Operation) (fixture : PaymentIntentFixture)
      → IsConsistent fixture
      → IsConsistent (run libraries operations fixture)
  unfolding run
  keeps-IsConsistent [] fixture h = h
  keeps-IsConsistent (operation ∷ operations) fixture h =
      keeps-IsConsistent operations (operate libraries operation fixture)
        (operate-IsConsistent operation fixture h)

  -- In every fixture that operations reach from a new one, whatever faults are injected, no two
  -- events share an object and a kind, and each event is of an object of the fixture, which is
  -- confirmed if the event says so.
  pub run-IsConsistent :
      (seed : ℕ) (operations : List Operation)
      → IsConsistent (run libraries operations (new_fixture seed))
  run-IsConsistent seed operations =
      keeps-IsConsistent operations (new_fixture seed) (record { distinct = tt; backed = tt })
