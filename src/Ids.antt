-- ===== src/Ids.antt =====
-- crates/tiv-core/src/ids.rs: the identifiers of the provider.
use Prim.Native.Char.{Char, code}
use tx_proof.Common.{
  ℕ, Bool, not, ◌&&◌, ◌||◌, Option, none, some, String, len, all_chars, is_ascii_lowercase, Result,
  ok, ◌>>=◌, ◌>>◌, ok_or, reject_if, ltb, leb, ◌==◌, if◌then◌else◌,
}

abbrev pub max_provider_id_bytes : ℕ
max_provider_id_bytes = 255

pub data InvalidProviderId : Type 0 where
  invalid_provider_id : InvalidProviderId

-- `str::strip_prefix`
abbrev pub strip_prefix : String → String → Option String
strip_prefix String.[] text = some text
strip_prefix (String.◌∷◌ p prefix) String.[] = none
strip_prefix (String.◌∷◌ p prefix) (String.◌∷◌ c text) =
    let rest = strip_prefix prefix text in if code p == code c then rest else none

abbrev pub is_alphanumeric : Char → Bool
is_alphanumeric c =
    is_ascii_lowercase c
    || ((leb 65 (code c) && leb (code c) 90) || (leb 48 (code c) && leb (code c) 57))

-- The bytes of a character that is not ASCII fail the test, as the character does.
unfoldable pub validate_provider_id : String → String → Result InvalidProviderId Unit
validate_provider_id value prefix = do
  suffix ← ok_or (strip_prefix prefix value) invalid_provider_id
  reject_if
      ((len suffix == 0)
        || (ltb max_provider_id_bytes (len value)
            || not (all_chars (λ c. is_alphanumeric c || (code c == 95)) suffix)))
      invalid_provider_id

pub record PaymentIntentId : Type 0 where
  pub text : String

pub record EventId : Type 0 where
  pub text : String

abbrev pub new_payment_intent_id : String → Result InvalidProviderId PaymentIntentId
new_payment_intent_id value = do validate_provider_id value "pi_"; ok (record { text = value })

abbrev pub new_event_id : String → Result InvalidProviderId EventId
new_event_id value = do validate_provider_id value "evt_"; ok (record { text = value })
