-- ===== src/Fixture/Replays.antt =====
-- crates/tiv-stripe-pi/src/lib.rs: what the idempotency cache of `PaymentIntentFixture` promises.
use tx_proof.Common.{
  ◌≡◌, ◌≢◌, refl, sym, ◌∙◌, subst, arith, Option, none, some, List, Result, ok, err, holds,
  if◌then◌else◌, lookup, lookup-insert_same,
}
use tx_proof.Fixture.Types.{
  IdempotencyKey, CreatePaymentIntent, FaultOutcome, normal, pre_execute_429, pre_execute_500,
  post_execute_500, commit_then_close, commit_then_delay, PaymentIntent, DataPlaneResponse,
  DataPlaneDisposition, response, close_connection, delay_response, FixtureError,
  idempotency_conflict, key_discrete, request_discrete,
}
use tx_proof.Fixture.Wire.{Libraries}
use tx_proof.Fixture.Provider.{
  PaymentIntentFixture, IdempotencyEntry, CreateExecution, execute_create, execute_found,
  commit_create, created_intent, replay, disposition_of, executed_response, pre_execution_response,
}
use tx_proof.Fixture.Runs.{Operation, run, run-Extends}

-- What the connection carries of a response: all of it, at once or later, or nothing.
abbrev pub IsDelivered : DataPlaneDisposition → DataPlaneResponse → Type 0
IsDelivered (response sent) cached = sent ≡ cached
IsDelivered (delay_response sent) cached = sent ≡ cached
IsDelivered close_connection cached = Unit

disposition_of-IsDelivered :
    (outcome : FaultOutcome) (executed : DataPlaneResponse)
    → IsDelivered (disposition_of outcome executed) executed
disposition_of-IsDelivered normal executed = refl
disposition_of-IsDelivered pre_execute_429 executed = refl
disposition_of-IsDelivered pre_execute_500 executed = refl
disposition_of-IsDelivered post_execute_500 executed = refl
disposition_of-IsDelivered commit_then_close executed = tt
disposition_of-IsDelivered commit_then_delay executed = refl

-- The answer to a create, as the cache of the fixture it leaves has it
record IsCached (key : IdempotencyKey) (request : CreatePaymentIntent) (execution : CreateExecution)
    (after : PaymentIntentFixture) (entry : IdempotencyEntry) : Type 0 where
  there : lookup key_discrete after.idempotency key ≡ some entry
  same_request : entry.request ≡ request
  same_object : execution.payment_intent ≡ some entry.payment_intent
  delivered : IsDelivered execution.disposition entry.cached

abbrev IsAnswered :
    IdempotencyKey
    → CreatePaymentIntent
    → Result FixtureError CreateExecution × PaymentIntentFixture
    → Type 0
IsAnswered key request (ok execution, after) =
    (entry : IdempotencyEntry) × IsCached key request execution after entry
IsAnswered key request (err e, after) = Unit

replay-IsAnswered :
    (fixture : PaymentIntentFixture) (key : IdempotencyKey) (request : CreatePaymentIntent)
    (entry : IdempotencyEntry)
    → lookup key_discrete fixture.idempotency key ≡ some entry
    → IsAnswered key request (replay entry request, fixture)
replay-IsAnswered fixture key request entry there =
    elim (request_discrete entry.request request)
      as (λ same. IsAnswered key request (
        if holds same
            then ok (record {
              disposition = response entry.cached;
              payment_intent = some entry.payment_intent;
            })
            else err idempotency_conflict,
        fixture,
      )) [
        | yes same ↦ (
          entry,
          record { there = there; same_request = same; same_object = refl; delivered = refl },
        )
        | no other ↦ tt
      ]

commit_create-IsAnswered :
    (fixture : PaymentIntentFixture) (key : IdempotencyKey) (request : CreatePaymentIntent)
    (outcome : FaultOutcome) (payment_intent : PaymentIntent)
    (result : Result FixtureError DataPlaneResponse)
    → IsAnswered key request (commit_create fixture key request outcome payment_intent result)
commit_create-IsAnswered fixture key request outcome payment_intent (err e) = tt
commit_create-IsAnswered fixture key request outcome payment_intent (ok executed) =
    let entry : IdempotencyEntry = record {
      request = request;
      payment_intent = payment_intent;
      cached = executed;
    } in
    (
      entry,
      record {
        there = lookup-insert_same key_discrete fixture.idempotency key entry;
        same_request = refl;
        same_object = refl;
        delivered = disposition_of-IsDelivered outcome executed;
      },
    )

module _ (libraries : Libraries) where
  execute_found-IsAnswered :
      (fixture : PaymentIntentFixture) (key : IdempotencyKey) (request : CreatePaymentIntent)
      (outcome : FaultOutcome) (found : Option IdempotencyEntry)
      → lookup key_discrete fixture.idempotency key ≡ found
      → pre_execution_response libraries outcome ≡ none
      → IsAnswered key request (execute_found libraries fixture key request outcome found)
  execute_found-IsAnswered fixture key request outcome (some entry) there executes =
      replay-IsAnswered fixture key request entry there
  execute_found-IsAnswered fixture key request outcome none absent executes =
      let payment_intent = created_intent libraries fixture request in
      rw executes (
        commit_create-IsAnswered fixture key request outcome payment_intent
          (executed_response libraries outcome payment_intent))

  replay_same :
      (entry : IdempotencyEntry) (request : CreatePaymentIntent)
      → entry.request ≡ request
      → replay entry request
        ≡ ok (record {
          disposition = response entry.cached;
          payment_intent = some entry.payment_intent;
        })
  replay_same entry request same = elim (request_discrete entry.request request) [
    | yes e ↦ ground arith
    | no n ↦ absurd (n same)
  ]

  replay_other :
      (entry : IdempotencyEntry) (request : CreatePaymentIntent)
      → entry.request ≢ request
      → replay entry request ≡ err idempotency_conflict
  replay_other entry request other = elim (request_discrete entry.request request) [
    | yes e ↦ absurd (other e)
    | no n ↦ ground arith
  ]

  -- What a cached entry makes of every create with its key
  abbrev pub IsReplayedFrom :
      PaymentIntentFixture → IdempotencyKey → CreatePaymentIntent → CreateExecution → Type 0
  IsReplayedFrom after key request execution =
      (cached : DataPlaneResponse) × IsDelivered execution.disposition cached
      × ((operations : List Operation) (retry : FaultOutcome)
          → execute_create libraries (run libraries operations after) key request retry ≡ (
            ok (record {
              disposition = response cached;
              payment_intent = execution.payment_intent;
            }),
            run libraries operations after,
          ))
      × ((operations : List Operation) (retry : FaultOutcome) (other : CreatePaymentIntent)
          → request ≢ other
          → execute_create libraries (run libraries operations after) key other retry
            ≡ (err idempotency_conflict, run libraries operations after))

  -- After a create that is executed and answered, whatever operations follow, a retry with its key
  -- and its parameters gets the response of the first answer and its object, and one with other
  -- parameters a conflict. Neither changes the fixture.
  pub create-replays :
      (fixture : PaymentIntentFixture) (key : IdempotencyKey) (request : CreatePaymentIntent)
      (outcome : FaultOutcome) (execution : CreateExecution) (after : PaymentIntentFixture)
      → pre_execution_response libraries outcome ≡ none
      → execute_create libraries fixture key request outcome ≡ (ok execution, after)
      → IsReplayedFrom after key request execution
  unfolding execute_create
  create-replays fixture key request outcome execution after executes h =
      let (entry, cached) : IsAnswered key request (ok execution, after) =
        subst (IsAnswered key request) h (
          execute_found-IsAnswered fixture key request outcome
            (lookup key_discrete fixture.idempotency key) refl executes) in
      (
        entry.cached,
        cached.delivered,
        λ operations retry.
            let kept = (run-Extends libraries operations after).entries key entry cached.there in
            rw (kept, cached.same_object, replay_same entry request cached.same_request) refl,
        λ operations retry other differs.
            let kept = (run-Extends libraries operations after).entries key entry cached.there in
            rw (kept, replay_other entry other (λ e. differs (sym cached.same_request ∙ e))) refl,
      )
