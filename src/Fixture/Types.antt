-- ===== src/Fixture/Types.antt =====
-- crates/tiv-stripe-pi/src/lib.rs: the provider's identifiers, requests, objects, responses and events.
use tx_proof.Common.{
  ℕ, Bool, false, not, ◌||◌, Option, none, some, List, String, string_discrete, ℕ_discrete, len,
  count, ltb, ◌==◌, Result, ok, err, ◌>>◌, reject_if, is_blank, is_ascii_lowercase, all_chars,
  if◌then◌else◌,
}

-- `i64`
pub data ℤ : Type 0 where
  pos : ℕ → ℤ
  negsuc : ℕ → ℤ

pub record IdempotencyKey : Type 0 where
  pub value : String

pub data InvalidIdempotencyKey : Type 0 where
  invalid_idempotency_key : InvalidIdempotencyKey

abbrev is_invalid_name : String → Bool
is_invalid_name value = is_blank value || ltb 255 (count value)

-- `IdempotencyKey::new`
unfoldable new_idempotency_key : String → Result InvalidIdempotencyKey IdempotencyKey
new_idempotency_key value =
    if is_invalid_name value then err invalid_idempotency_key else ok (record { value = value })

pub record OperationId : Type 0 where
  pub value : String

pub data InvalidOperationId : Type 0 where
  invalid_operation_id : InvalidOperationId

-- `OperationId::new`
unfoldable new_operation_id : String → Result InvalidOperationId OperationId
new_operation_id value =
    if is_invalid_name value then err invalid_operation_id else ok (record { value = value })

pub record CreatePaymentIntent : Type 0 where
  pub amount_minor : ℤ
  pub currency : String
  pub operation_id : Option OperationId

pub data InvalidCreateRequest : Type 0 where
  invalid_currency non_positive_amount : InvalidCreateRequest

abbrev is_positive : ℤ → Bool
is_positive (pos n) = ltb 0 n
is_positive (negsuc n) = false

-- `CreatePaymentIntent::new`
unfoldable new_create_payment_intent : ℤ → String → Result InvalidCreateRequest CreatePaymentIntent
new_create_payment_intent amount_minor currency = do
  reject_if (not (is_positive amount_minor)) non_positive_amount
  reject_if (not (len currency == 3) || not (all_chars is_ascii_lowercase currency))
      invalid_currency
  ok (record { amount_minor = amount_minor; currency = currency; operation_id = none })

abbrev with_operation_id : CreatePaymentIntent → OperationId → CreatePaymentIntent
with_operation_id request operation_id = record request { operation_id = some operation_id }

pub data FaultOutcome : Type 0 where
  normal pre_execute_429 pre_execute_500 post_execute_500 commit_then_close commit_then_delay :
      FaultOutcome

pub data PaymentIntentStatus : Type 0 where
  requires_confirmation succeeded : PaymentIntentStatus

pub record PaymentIntent : Type 0 where
  pub id : String
  pub amount_minor : ℤ
  pub currency : String
  pub operation_id : Option OperationId
  pub status : PaymentIntentStatus

pub record DataPlaneResponse : Type 0 where
  pub status_code : ℕ
  pub content_type : String
  pub raw_body : List ℕ

abbrev pub json : ℕ → List ℕ → DataPlaneResponse
json status_code raw_body = record {
  status_code = status_code;
  content_type = "application/json";
  raw_body = raw_body;
}

pub data DataPlaneDisposition : Type 0 where
  response : DataPlaneResponse → DataPlaneDisposition
  close_connection : DataPlaneDisposition
  delay_response : DataPlaneResponse → DataPlaneDisposition

pub data EventKind : Type 0 where
  payment_intent_requires_confirmation payment_intent_succeeded : EventKind

abbrev pub kind_event_type : EventKind → String
kind_event_type payment_intent_requires_confirmation = "payment_intent.requires_confirmation"
kind_event_type payment_intent_succeeded = "payment_intent.succeeded"

abbrev pub kind_status : EventKind → String
kind_status payment_intent_requires_confirmation = "requires_confirmation"
kind_status payment_intent_succeeded = "succeeded"

abbrev pub kind_created : EventKind → ℤ
kind_created payment_intent_requires_confirmation = pos 0
kind_created payment_intent_succeeded = pos 1

pub record ProviderEvent : Type 0 where
  pub id : String
  pub kind : EventKind
  pub created : ℤ
  pub payment_intent_id : String
  pub raw_body : List ℕ

pub data FixtureError : Type 0 where
  connection_closed idempotency_conflict not_found rate_limited server_error serialization :
      FixtureError

unfoldable pub key_discrete : Discrete IdempotencyKey
unfolding string_discrete
key_discrete = hlevel string_discrete

unfoldable pub request_discrete : Discrete CreatePaymentIntent
unfolding string_discrete ℕ_discrete
request_discrete = hlevel (string_discrete, ℕ_discrete)

unfoldable pub kind_discrete : Discrete EventKind
kind_discrete = hlevel
