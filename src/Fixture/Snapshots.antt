-- ===== src/Fixture/Snapshots.antt =====
-- crates/tiv-stripe-pi/src/lib.rs: the events of `PaymentIntentFixture` are immutable snapshots.
use tx_proof.Common.{
  ℕ, ◌≡◌, refl, sym, ap, subst, true, Option, none, some, List, any, find?, String, Result, ok, err,
  ◌>>=◌, ok_or, Bool-cases, inl, inr, find_index, set_elem,
}
use tx_proof.Fixture.Types.{
  PaymentIntent, PaymentIntentStatus, succeeded, requires_confirmation, EventKind,
  payment_intent_succeeded, ProviderEvent, FixtureError, not_found,
}
use tx_proof.Fixture.Wire.{Libraries}
use tx_proof.Fixture.Provider.{PaymentIntentFixture, has_id, is_succeeded, is_event_of}
use tx_proof.Fixture.Confirm.{
  ensure_event, confirm, confirm_found, event_snapshot, snapshot_found, snapshot_at, kind_of,
}
use tx_proof.Fixture.Extends.{confirmed, Extends}
use tx_proof.Fixture.Runs.{Operation, run, run-Extends}
use tx_proof.Fixture.Ready.{ensure_event-objects}
use tx_proof.Fixture.Found.{
  find?-append, find?-any, find_index-id, same_status, find_index-Progresses, find_index-set_elem,
}

-- The object is there, confirmed if the status is, with the event for the status.
record IsSettled (fixture : PaymentIntentFixture) (id : String) (status : PaymentIntentStatus)
    (event : ProviderEvent) : Type 0 where
  index : ℕ
  payment_intent : PaymentIntent
  there : find_index (has_id id) fixture.payment_intents ≡ some (index, payment_intent)
  reached : status ≡ succeeded → payment_intent.status ≡ succeeded
  recorded : find? (is_event_of id (kind_of status)) fixture.events ≡ some event

IsSettled-Extends :
    (before after : PaymentIntentFixture) (id : String) (status : PaymentIntentStatus)
    (event : ProviderEvent)
    → Extends before after
    → IsSettled before id status event
    → IsSettled after id status event
IsSettled-Extends before after id status event e s =
    let (y, there, object) =
      find_index-Progresses id before.payment_intents after.payment_intents s.index s.payment_intent
        e.objects s.there in
    record {
      index = s.index;
      payment_intent = y;
      there = there;
      reached = λ r. same_status s.payment_intent y object (s.reached r);
      recorded =
          subst (λ es. find? (is_event_of id (kind_of status)) es ≡ some event) (sym e.events.1)
            (find?-append (is_event_of id (kind_of status)) before.events e.events.0 event
              s.recorded);
    }

module _ (libraries : Libraries) where
  -- An event that is there is not created again.
  ensure_event-there :
      (fixture : PaymentIntentFixture) (payment_intent : PaymentIntent) (kind : EventKind)
      → any (is_event_of payment_intent.id kind) fixture.events ≡ true
      → ensure_event libraries fixture payment_intent kind ≡ (ok tt, fixture)
  unfolding ensure_event
  ensure_event-there fixture payment_intent kind h = rw h refl

  confirm-already :
      (fixture : PaymentIntentFixture) (id : String) (index : ℕ) (payment_intent : PaymentIntent)
      → find_index (has_id id) fixture.payment_intents ≡ some (index, payment_intent)
      → payment_intent.status ≡ succeeded
      → confirm libraries fixture id ≡ (ok payment_intent, fixture)
  unfolding confirm
  confirm-already fixture id index payment_intent there s =
      let already : is_succeeded payment_intent.status ≡ true = ap is_succeeded s in
      rw (there, already) refl

  snapshot_at-settled :
      (fixture : PaymentIntentFixture) (id : String) (status : PaymentIntentStatus) (index : ℕ)
      (payment_intent : PaymentIntent)
      → find_index (has_id id) fixture.payment_intents ≡ some (index, payment_intent)
      → (status ≡ succeeded → payment_intent.status ≡ succeeded)
      → snapshot_at libraries fixture id status (some (index, payment_intent))
        ≡ (ok payment_intent, fixture)
  snapshot_at-settled fixture id requires_confirmation index payment_intent there reached = refl
  snapshot_at-settled fixture id succeeded index payment_intent there reached =
      confirm-already fixture id index payment_intent there (reached refl)

  settled-answers :
      (fixture : PaymentIntentFixture) (id : String) (status : PaymentIntentStatus)
      (event : ProviderEvent)
      → IsSettled fixture id status event
      → event_snapshot libraries fixture id status ≡ (ok event, fixture)
  unfolding event_snapshot
  settled-answers fixture id status event s =
      let kind = kind_of status in
      let found =
        snapshot_at-settled fixture id status s.index s.payment_intent s.there s.reached in
      let same : s.payment_intent.id ≡ id =
        find_index-id id fixture.payment_intents s.index s.payment_intent s.there in
      let known : any (is_event_of s.payment_intent.id kind) fixture.events ≡ true =
        subst (λ i. any (is_event_of i kind) fixture.events ≡ true) (sym same)
          (find?-any (is_event_of id kind) fixture.events event s.recorded) in
      rw (s.there, found, ensure_event-there fixture s.payment_intent kind known, s.recorded) refl

  -- What a step of a snapshot leaves for the event
  IsFound :
      String
      → PaymentIntentStatus
      → Result FixtureError PaymentIntent × PaymentIntentFixture
      → Type 0
  IsFound id status (err e, fixture) = Unit
  IsFound id status (ok payment_intent, fixture) =
      (index : ℕ) × (find_index (has_id id) fixture.payment_intents ≡ some (index, payment_intent))
      × (status ≡ succeeded → payment_intent.status ≡ succeeded)

  confirmed-IsFound :
      (id : String) (index : ℕ) (payment_intent : PaymentIntent) (marked : PaymentIntentFixture)
      (ensured : Result FixtureError Unit × PaymentIntentFixture)
      → ensured.1.payment_intents ≡ marked.payment_intents
      → find_index (has_id id) marked.payment_intents ≡ some (index, confirmed payment_intent)
      → IsFound id succeeded (ensured.0 >>= λ _. ok (confirmed payment_intent), ensured.1)
  unfolding IsFound
  confirmed-IsFound id index payment_intent marked (err e, next) same there = tt
  confirmed-IsFound id index payment_intent marked (ok u, next) same there = (
    index,
    subst (λ xs. find_index (has_id id) xs ≡ some (index, confirmed payment_intent)) (sym same)
        there,
    λ s. refl,
  )

  confirm_found-IsFound :
      (fixture : PaymentIntentFixture) (id : String) (found : Option (ℕ × PaymentIntent))
      → find_index (has_id id) fixture.payment_intents ≡ found
      → IsFound id succeeded (confirm_found libraries fixture found)
  unfolding IsFound
  confirm_found-IsFound fixture id none h = tt
  confirm_found-IsFound fixture id (some (index, payment_intent)) h =
      elim (Bool-cases (is_succeeded payment_intent.status)) [
        | inl already ↦
            rw already (index, h, λ s. is_succeeded-status payment_intent.status already)
        | inr waiting ↦
            let marked : PaymentIntentFixture = record fixture {
              payment_intents = set_elem fixture.payment_intents index (confirmed payment_intent);
            } in
            rw waiting (
              confirmed-IsFound id index payment_intent marked
                (ensure_event libraries marked (confirmed payment_intent) payment_intent_succeeded)
                (ensure_event-objects libraries marked (confirmed payment_intent)
                  payment_intent_succeeded)
                (find_index-set_elem id fixture.payment_intents index payment_intent h))
      ]
    where
      is_succeeded-status :
          (status : PaymentIntentStatus) → is_succeeded status ≡ true → status ≡ succeeded
      is_succeeded-status requires_confirmation e = cc
      is_succeeded-status succeeded e = refl

  snapshot_at-IsFound :
      (fixture : PaymentIntentFixture) (id : String) (status : PaymentIntentStatus)
      (found : Option (ℕ × PaymentIntent))
      → find_index (has_id id) fixture.payment_intents ≡ found
      → IsFound id status (snapshot_at libraries fixture id status found)
  unfolding IsFound confirm
  snapshot_at-IsFound fixture id status none h = tt
  snapshot_at-IsFound fixture id requires_confirmation (some (index, payment_intent)) h =
      (index, h, λ s. cc)
  snapshot_at-IsFound fixture id succeeded (some (index, payment_intent)) h =
      confirm_found-IsFound fixture id (find_index (has_id id) fixture.payment_intents) refl

  IsAnswered :
      String
      → PaymentIntentStatus
      → Result FixtureError ProviderEvent × PaymentIntentFixture
      → Type 0
  IsAnswered id status (err e, fixture) = Unit
  IsAnswered id status (ok event, fixture) = IsSettled fixture id status event

  ensured-IsAnswered :
      (id : String) (status : PaymentIntentStatus) (before : PaymentIntentFixture)
      (payment_intent : PaymentIntent) (ensured : Result FixtureError Unit × PaymentIntentFixture)
      (event : Option ProviderEvent)
      → find? (is_event_of id (kind_of status)) ensured.1.events ≡ event
      → ensured.1.payment_intents ≡ before.payment_intents
      → IsFound id status (ok payment_intent, before)
      → IsAnswered id status (ensured.0 >>= λ _. ok_or event not_found, ensured.1)
  unfolding IsFound IsAnswered
  ensured-IsAnswered id status before payment_intent (err e, next) event recorded same found = tt
  ensured-IsAnswered id status before payment_intent (ok u, next) none recorded same found = tt
  ensured-IsAnswered id status before payment_intent (ok u, next) (some event) recorded same
        (index, there, reached) =
      record {
        index = index;
        payment_intent = payment_intent;
        there =
            subst (λ xs. find_index (has_id id) xs ≡ some (index, payment_intent)) (sym same) there;
        reached = reached;
        recorded = recorded;
      }

  snapshot_found-IsAnswered :
      (id : String) (status : PaymentIntentStatus)
      (found : Result FixtureError PaymentIntent × PaymentIntentFixture)
      → IsFound id status found
      → IsAnswered id status (snapshot_found libraries id (kind_of status) found)
  unfolding IsFound IsAnswered
  snapshot_found-IsAnswered id status (err e, fixture) h = tt
  snapshot_found-IsAnswered id status (ok payment_intent, fixture) h =
      ensured-IsAnswered id status fixture payment_intent
        (ensure_event libraries fixture payment_intent (kind_of status)) _ refl
        (ensure_event-objects libraries fixture payment_intent (kind_of status)) h

  -- An event that was answered once is answered again, to the last byte and without changing the
  -- fixture, after whatever operations follow.
  pub event_snapshot-stays :
      (fixture : PaymentIntentFixture) (id : String) (status : PaymentIntentStatus)
      (event : ProviderEvent) (after : PaymentIntentFixture) (operations : List Operation)
      → event_snapshot libraries fixture id status ≡ (ok event, after)
      → event_snapshot libraries (run libraries operations after) id status
        ≡ (ok event, run libraries operations after)
  unfolding event_snapshot IsAnswered
  event_snapshot-stays fixture id status event after operations h =
      let settled : IsSettled after id status event = subst (IsAnswered id status) h (
        snapshot_found-IsAnswered id status
          (snapshot_at libraries fixture id status (find_index (has_id id) fixture.payment_intents))
          (snapshot_at-IsFound fixture id status (find_index (has_id id) fixture.payment_intents)
            refl)) in
      settled-answers (run libraries operations after) id status event (
        IsSettled-Extends after (run libraries operations after) id status event
          (run-Extends libraries operations after) settled)
