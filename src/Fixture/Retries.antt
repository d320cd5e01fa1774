-- ===== src/Fixture/Retries.antt =====
-- crates/tiv-stripe-pi/src/lib.rs: `PaymentIntentFixture` under a client that retries one create.
use tx_proof.Common.{
  ℕ, suc, ◌≤◌, ◌≡◌, refl, sym, subst, arith, none, some, List, [], ◌∷◌, ◌++◌, map, length,
  length-append_one, ok, Option-cases, inl, inr, lookup, insert_entry, lookup-insert_same,
}
use tx_proof.Fixture.Types.{
  IdempotencyKey, CreatePaymentIntent, FaultOutcome, normal, pre_execute_429, pre_execute_500,
  post_execute_500, commit_then_close, commit_then_delay, PaymentIntent, DataPlaneResponse,
  key_discrete,
}
use tx_proof.Fixture.Wire.{Libraries, PaymentIntentWire, payment_intent_wire}
use tx_proof.Fixture.Provider.{
  PaymentIntentFixture, IdempotencyEntry, execute_create, execute_found, execute_new, commit_create,
  created_intent, executed_response, pre_execution_response,
}
use tx_proof.Fixture.Runs.{Operation, creation, operate, run}

module _ (libraries : Libraries) (key : IdempotencyKey) (request : CreatePaymentIntent) where
  -- The create with each of the outcomes in turn
  abbrev pub retries : List FaultOutcome → List Operation
  retries outcomes = map (creation key request) outcomes

  run-retries_cached :
      (outcomes : List FaultOutcome) (fixture : PaymentIntentFixture) (entry : IdempotencyEntry)
      → lookup key_discrete fixture.idempotency key ≡ some entry
      → run libraries (retries outcomes) fixture ≡ fixture
  unfolding run operate execute_create
  run-retries_cached [] fixture entry h = refl
  run-retries_cached (outcome ∷ outcomes) fixture entry h =
      subst
        (λ found.
          run libraries (retries outcomes)
            (execute_found libraries fixture key request outcome found).1
          ≡ fixture)
        (sym h) (run-retries_cached outcomes fixture entry h)

  executed_response-ok :
      (outcome : FaultOutcome) (payment_intent : PaymentIntent)
      → ((wire : PaymentIntentWire)
          → (bytes : List ℕ) × (libraries.payment_intent_to_vec wire ≡ some bytes))
      → (executed : DataPlaneResponse) × (executed_response libraries outcome payment_intent
          ≡ ok executed)
  executed_response-ok post_execute_500 payment_intent encodes = (_, refl)
  executed_response-ok normal payment_intent encodes =
      let (bytes, e) = encodes (payment_intent_wire payment_intent) in rw e (_, refl)
  executed_response-ok pre_execute_429 payment_intent encodes =
      let (bytes, e) = encodes (payment_intent_wire payment_intent) in rw e (_, refl)
  executed_response-ok pre_execute_500 payment_intent encodes =
      let (bytes, e) = encodes (payment_intent_wire payment_intent) in rw e (_, refl)
  executed_response-ok commit_then_close payment_intent encodes =
      let (bytes, e) = encodes (payment_intent_wire payment_intent) in rw e (_, refl)
  executed_response-ok commit_then_delay payment_intent encodes =
      let (bytes, e) = encodes (payment_intent_wire payment_intent) in rw e (_, refl)

  -- After a create that is executed, the repetitions change nothing.
  committed :
      (outcomes : List FaultOutcome) (outcome : FaultOutcome) (fixture : PaymentIntentFixture)
      (executed : DataPlaneResponse)
      → executed_response libraries outcome (created_intent libraries fixture request) ≡ ok executed
      → length
          (run libraries
            (retries outcomes)
            (execute_new libraries fixture key request outcome none).1).payment_intents
        ≤ suc (length fixture.payment_intents)
  committed outcomes outcome fixture executed answered =
      let payment_intent = created_intent libraries fixture request in
      let entry : IdempotencyEntry = record {
        request = request;
        payment_intent = payment_intent;
        cached = executed;
      } in
      let next : PaymentIntentFixture = record fixture {
        payment_intents = fixture.payment_intents ++ payment_intent ∷ [];
        idempotency = insert_entry key_discrete fixture.idempotency key entry;
      } in
      let settled =
        run-retries_cached outcomes next entry
          (lookup-insert_same key_discrete fixture.idempotency key entry) in
      subst
        (λ result.
          length
            (run libraries (retries outcomes)
              (commit_create fixture key request outcome payment_intent result).1).payment_intents
          ≤ suc (length fixture.payment_intents))
        (sym answered)
        (rw settled (omega (arith, length-append_one fixture.payment_intents payment_intent)))

  -- However often a client repeats a create, and whatever faults it meets, at most one object is
  -- created, provided that `serde_json` encodes every object.
  pub retries-AtMostOnce :
      (outcomes : List FaultOutcome) (fixture : PaymentIntentFixture)
      → ((wire : PaymentIntentWire)
          → (bytes : List ℕ) × (libraries.payment_intent_to_vec wire ≡ some bytes))
      → length (run libraries (retries outcomes) fixture).payment_intents
        ≤ suc (length fixture.payment_intents)
  unfolding run operate execute_create
  retries-AtMostOnce [] fixture encodes = omega arith
  retries-AtMostOnce (outcome ∷ outcomes) fixture encodes =
      elim (Option-cases (lookup key_discrete fixture.idempotency key)) [
        | inr (entry, there) ↦
            rw (run-retries_cached (outcome ∷ outcomes) fixture entry there) (omega arith)
        | inl absent ↦
            subst
              (λ found.
                length
                  (run libraries (retries outcomes)
                    (execute_found libraries fixture key request outcome found).1).payment_intents
                ≤ suc (length fixture.payment_intents))
              (sym absent)
              (elim (Option-cases (pre_execution_response libraries outcome)) [
                | inr (refused, early) ↦
                    subst
                      (λ response.
                        length
                          (run libraries (retries outcomes)
                            (execute_new libraries fixture key request outcome
                              response).1).payment_intents
                        ≤ suc (length fixture.payment_intents))
                      (sym early) (retries-AtMostOnce outcomes fixture encodes)
                | inl executes ↦
                    let (executed, answered) =
                      executed_response-ok outcome (created_intent libraries fixture request)
                        encodes in
                    subst
                      (λ response.
                        length
                          (run libraries (retries outcomes)
                            (execute_new libraries fixture key request outcome
                              response).1).payment_intents
                        ≤ suc (length fixture.payment_intents))
                      (sym executes) (committed outcomes outcome fixture executed answered)
              ])
      ]
