-- ===== src/Fixture/Provider.antt =====
-- crates/tiv-stripe-pi/src/lib.rs: `PaymentIntentFixture`. A method with `&mut self` returns its result
-- beside the fixture it leaves, which it also does where it fails.
use tx_proof.Common.{
  ℕ, ◌+◌, ◌%◌, ◌^◌, ◌==◌, Bool, true, false, ◌&&◌, Option, none, some, List, [], ◌∷◌, ◌++◌, length,
  String, string_discrete, Result, ok, err, ◌>>=◌, holds, if◌then◌else◌, lookup, insert_entry,
}
use tx_proof.Fixture.Types.{
  IdempotencyKey, CreatePaymentIntent, FaultOutcome, normal, pre_execute_429, pre_execute_500,
  post_execute_500, commit_then_close, commit_then_delay, PaymentIntent, PaymentIntentStatus,
  requires_confirmation, succeeded, DataPlaneResponse, json, DataPlaneDisposition, response,
  close_connection, delay_response, EventKind, ProviderEvent, FixtureError, connection_closed,
  idempotency_conflict, rate_limited, server_error, key_discrete, request_discrete, kind_discrete,
}
use tx_proof.Fixture.Wire.{Libraries, payment_intent_json, derived_id}

pub record IdempotencyEntry : Type 0 where
  pub request : CreatePaymentIntent
  pub payment_intent : PaymentIntent
  pub cached : DataPlaneResponse

pub record CreateExecution : Type 0 where
  pub disposition : DataPlaneDisposition
  pub payment_intent : Option PaymentIntent

pub record PaymentIntentFixture : Type 0 where
  pub seed : ℕ
  pub payment_intents : List PaymentIntent
  pub events : List ProviderEvent
  pub idempotency : List (IdempotencyKey × IdempotencyEntry)

abbrev pub new_fixture : ℕ → PaymentIntentFixture
new_fixture seed = record { seed = seed; payment_intents = []; events = []; idempotency = [] }

abbrev pub has_id : String → PaymentIntent → Bool
has_id id payment_intent = holds (string_discrete payment_intent.id id)

abbrev pub is_event_of : String → EventKind → ProviderEvent → Bool
is_event_of id kind event =
    holds (string_discrete event.payment_intent_id id) && holds (kind_discrete event.kind kind)

abbrev pub is_succeeded : PaymentIntentStatus → Bool
is_succeeded requires_confirmation = false
is_succeeded succeeded = true

abbrev pub disposition_of : FaultOutcome → DataPlaneResponse → DataPlaneDisposition
disposition_of commit_then_close executed = close_connection
disposition_of commit_then_delay executed = delay_response executed
disposition_of _ executed = response executed

-- `execute_create` from the push on
abbrev pub commit_create :
    PaymentIntentFixture
    → IdempotencyKey
    → CreatePaymentIntent
    → FaultOutcome
    → PaymentIntent
    → Result FixtureError DataPlaneResponse
    → Result FixtureError CreateExecution × PaymentIntentFixture
commit_create fixture key request outcome payment_intent (err e) =
    (err e, record fixture { payment_intents = fixture.payment_intents ++ payment_intent ∷ [] })
commit_create fixture key request outcome payment_intent (ok executed) = (
  ok (record {
    disposition = disposition_of outcome executed;
    payment_intent = some payment_intent;
  }),
  record fixture {
    payment_intents = fixture.payment_intents ++ payment_intent ∷ [];
    idempotency =
        insert_entry key_discrete fixture.idempotency key
          (record { request = request; payment_intent = payment_intent; cached = executed });
  },
)

-- `execute_create` where the key has an entry
abbrev pub replay : IdempotencyEntry → CreatePaymentIntent → Result FixtureError CreateExecution
replay entry request =
    if holds (request_discrete entry.request request)
    then ok
        (record { disposition = response entry.cached; payment_intent = some entry.payment_intent })
    else err idempotency_conflict

-- The match of `create` on the disposition and the object
abbrev pub create_result :
    DataPlaneDisposition → Option PaymentIntent → Result FixtureError PaymentIntent
create_result close_connection payment_intent = err connection_closed
create_result (delay_response delayed) (some payment_intent) = ok payment_intent
create_result (delay_response delayed) none = err server_error
create_result (response executed) (some payment_intent) =
    if executed.status_code == 200
    then ok payment_intent
    else if executed.status_code == 429
    then err rate_limited
    else err server_error
create_result (response executed) none =
    if executed.status_code == 429 then err rate_limited else err server_error

module _ (libraries : Libraries) where
  abbrev pub rate_limit_response : DataPlaneResponse
  rate_limit_response =
      json 429 (libraries.text_bytes "{\"error\":{\"type\":\"rate_limit_error\"}}")

  abbrev pub api_error_response : DataPlaneResponse
  api_error_response = json 500 (libraries.text_bytes "{\"error\":{\"type\":\"api_error\"}}")

  abbrev pub pre_execution_response : FaultOutcome → Option DataPlaneResponse
  pre_execution_response pre_execute_429 = some rate_limit_response
  pre_execution_response pre_execute_500 = some api_error_response
  pre_execution_response normal = none
  pre_execution_response post_execute_500 = none
  pre_execution_response commit_then_close = none
  pre_execution_response commit_then_delay = none

  -- The response of an executed request
  abbrev pub executed_response :
      FaultOutcome → PaymentIntent → Result FixtureError DataPlaneResponse
  executed_response post_execute_500 payment_intent = ok api_error_response
  executed_response _ payment_intent =
      payment_intent_json libraries payment_intent >>= λ raw_body. ok (json 200 raw_body)

  -- `sequence` is a `u64`
  abbrev pub created_intent : PaymentIntentFixture → CreatePaymentIntent → PaymentIntent
  created_intent fixture request = record {
    id =
        derived_id libraries fixture.seed "payment-intent-id" "pi_tiv_"
          ((length fixture.payment_intents % 2 ^ 64 + 1) % 2 ^ 64);
    amount_minor = request.amount_minor;
    currency = request.currency;
    operation_id = request.operation_id;
    status = requires_confirmation;
  }

  -- `execute_create` where it has none
  abbrev pub execute_new :
      PaymentIntentFixture
      → IdempotencyKey
      → CreatePaymentIntent
      → FaultOutcome
      → Option DataPlaneResponse
      → Result FixtureError CreateExecution × PaymentIntentFixture
  execute_new fixture key request outcome (some refused) =
      (ok (record { disposition = response refused; payment_intent = none }), fixture)
  execute_new fixture key request outcome none =
      let payment_intent = created_intent fixture request in
      commit_create fixture key request outcome payment_intent
        (executed_response outcome payment_intent)

  abbrev pub execute_found :
      PaymentIntentFixture
      → IdempotencyKey
      → CreatePaymentIntent
      → FaultOutcome
      → Option IdempotencyEntry
      → Result FixtureError CreateExecution × PaymentIntentFixture
  execute_found fixture key request outcome (some entry) = (replay entry request, fixture)
  execute_found fixture key request outcome none =
      execute_new fixture key request outcome (pre_execution_response outcome)

  unfoldable pub execute_create :
      PaymentIntentFixture
      → IdempotencyKey
      → CreatePaymentIntent
      → FaultOutcome
      → Result FixtureError CreateExecution × PaymentIntentFixture
  execute_create fixture key request outcome =
      execute_found fixture key request outcome (lookup key_discrete fixture.idempotency key)

  abbrev pub create_data_plane :
      PaymentIntentFixture
      → IdempotencyKey
      → CreatePaymentIntent
      → FaultOutcome
      → Result FixtureError DataPlaneDisposition × PaymentIntentFixture
  create_data_plane fixture key request outcome =
      let (result, next) = execute_create fixture key request outcome in
      (result >>= λ execution. ok execution.disposition, next)

  unfoldable pub create :
      PaymentIntentFixture
      → IdempotencyKey
      → CreatePaymentIntent
      → FaultOutcome
      → Result FixtureError PaymentIntent × PaymentIntentFixture
  create fixture key request outcome =
      let (result, next) = execute_create fixture key request outcome in
      (result >>= λ execution. create_result execution.disposition execution.payment_intent, next)
