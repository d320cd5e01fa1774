-- ===== src/Fixture/Wire.antt =====
-- crates/tiv-stripe-pi/src/lib.rs: what the fixture encodes and hashes. `serde_json::to_vec` and the
-- hasher of `blake3` are parameters.
use tx_proof.Common.{ℕ, Option, none, some, List, ◌++◌, String, slice, to_le_bytes, Result, ok_or}
use Prim.Native.String.{◌++◌ as append}
use tx_proof.Fixture.Types.{
  ℤ, OperationId, PaymentIntent, PaymentIntentStatus, requires_confirmation, succeeded,
  FixtureError, serialization,
}

pub record PaymentIntentWire : Type 0 where
  pub id : String
  pub object : String
  pub amount : ℤ
  pub currency : String
  pub status : String
  pub metadata_operation_id : Option String

pub record EventWire : Type 0 where
  pub id : String
  pub object : String
  pub created : ℤ
  pub event_type : String
  pub data_object : PaymentIntentWire

-- `serde_json::to_vec` at the two types, `none` for its errors, the bytes of a literal, and the
-- hexadecimal digest of a text followed by bytes
pub record Libraries : Type 0 where
  pub payment_intent_to_vec : PaymentIntentWire → Option (List ℕ)
  pub event_to_vec : EventWire → Option (List ℕ)
  pub text_bytes : String → List ℕ
  pub blake3_hex : String → List ℕ → String

abbrev pub operation_text : Option OperationId → Option String
operation_text none = none
operation_text (some operation_id) = some operation_id.value

abbrev pub status_text : PaymentIntentStatus → String
status_text requires_confirmation = "requires_confirmation"
status_text succeeded = "succeeded"

abbrev pub payment_intent_wire : PaymentIntent → PaymentIntentWire
payment_intent_wire payment_intent = record {
  id = payment_intent.id;
  object = "payment_intent";
  amount = payment_intent.amount_minor;
  currency = payment_intent.currency;
  status = status_text payment_intent.status;
  metadata_operation_id = operation_text payment_intent.operation_id;
}

module _ (libraries : Libraries) where
  abbrev pub payment_intent_json : PaymentIntent → Result FixtureError (List ℕ)
  payment_intent_json payment_intent =
      ok_or (libraries.payment_intent_to_vec (payment_intent_wire payment_intent)) serialization

  abbrev pub derived_id : ℕ → String → String → ℕ → String
  derived_id seed domain prefix sequence = append prefix (
      slice
        (libraries.blake3_hex (append "tiv/stripe-pi/" (append domain "/v1"))
          (to_le_bytes 8 seed ++ to_le_bytes 8 sequence))
        0 24)
