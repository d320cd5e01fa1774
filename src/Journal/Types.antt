-- ===== src/Journal/Types.antt =====
-- crates/tiv-runtime/src/journal.rs: limits, contexts, observations and records.
use Prim.Native.Char.{Char, code}
use tx_proof.Common.{
  ℕ, ◌*◌, Bool, not, ◌&&◌, ◌||◌, List, String, len, all_chars, is_ascii_lowercase, Result, Option,
  ok, ◌>>◌, reject_if, leb, ◌==◌,
}

abbrev pub observation_schema_version : ℕ
observation_schema_version = 1

abbrev pub genesis_hash : String
genesis_hash = "0000000000000000000000000000000000000000000000000000000000000000"

abbrev pub max_record_bytes : ℕ
max_record_bytes = 8 * 1024

abbrev pub max_id_bytes : ℕ
max_id_bytes = 128

pub data InvalidJournalLimits : Type 0 where
  invalid_journal_limits : InvalidJournalLimits

pub record JournalLimits : Type 0 where
  pub channel_capacity : ℕ
  pub max_records : ℕ

abbrev pub new_limits : ℕ → ℕ → Result InvalidJournalLimits JournalLimits
new_limits channel_capacity max_records = do
  reject_if ((channel_capacity == 0) || (max_records == 0)) invalid_journal_limits
  ok (record { channel_capacity = channel_capacity; max_records = max_records })

-- `u8::is_ascii_alphanumeric`
abbrev pub is_ascii_alphanumeric : Char → Bool
is_ascii_alphanumeric c =
    is_ascii_lowercase c
    || ((leb 65 (code c) && leb (code c) 90) || (leb 48 (code c) && leb (code c) 57))

abbrev pub is_id_char : Char → Bool
is_id_char c = is_ascii_alphanumeric c || ((code c == 95) || (code c == 45))

-- The bytes of a character that is not ASCII fail the test, as the character does.
unfoldable pub valid_id : String → Bool
valid_id value =
    not (len value == 0) && (leb (len value) max_id_bytes && all_chars is_id_char value)

pub data InvalidJournalId : Type 0 where
  invalid_journal_id : InvalidJournalId

pub record JournalContext : Type 0 where
  pub run : String
  pub case_name : String
  pub action : ℕ

unfoldable pub new_context : String → String → ℕ → Result InvalidJournalId JournalContext
new_context run_id case_id action_id = do
  reject_if (not (valid_id run_id) || not (valid_id case_id)) invalid_journal_id
  ok (record { run = run_id; case_name = case_id; action = action_id })

pub data ObservationProducer : Type 0 where
  orchestrator driver fixture postgres compose : ObservationProducer

unfoldable pub producer_discrete : Discrete ObservationProducer
producer_discrete = hlevel

pub data ObservationEvent : Type 0 where
  action_intent action_outcome client_response_observed : ObservationEvent
  provider_response_held provider_response_released webhook_request_forwarded
        webhook_request_discarded webhook_response_observed webhook_response_discarded :
      ℕ → ObservationEvent
  sql_probe_true : ObservationEvent

pub record Observation : Type 0 where
  pub context : JournalContext
  pub producer : ObservationProducer
  pub producer_sequence : ℕ
  pub monotonic_elapsed_micros : ℕ
  pub event : ObservationEvent

pub data ObservationKind : Type 0 where
  intent outcome client_response response_held response_released request_forwarded request_discarded
        response_observed response_discarded probe_true :
      ObservationKind

pub data ObservationPayload : Type 0 where
  nothing : ObservationPayload
  gate : ℕ → ObservationPayload

abbrev pub parts : ObservationEvent → ObservationKind × ObservationPayload
parts action_intent = (intent, nothing)
parts action_outcome = (outcome, nothing)
parts client_response_observed = (client_response, nothing)
parts (provider_response_held gate_id) = (response_held, gate gate_id)
parts (provider_response_released gate_id) = (response_released, gate gate_id)
parts (webhook_request_forwarded gate_id) = (request_forwarded, gate gate_id)
parts (webhook_request_discarded gate_id) = (request_discarded, gate gate_id)
parts (webhook_response_observed gate_id) = (response_observed, gate gate_id)
parts (webhook_response_discarded gate_id) = (response_discarded, gate gate_id)
parts sql_probe_true = (probe_true, nothing)

-- All that the hash of a record covers, which is all of the record but the hash itself.
pub record RecordHashInput : Type 0 where
  pub schema_version : ℕ
  pub observed_sequence : ℕ
  pub run_id : String
  pub case_id : String
  pub action_id : ℕ
  pub producer : ObservationProducer
  pub producer_sequence : ℕ
  pub observation_kind : ObservationKind
  pub monotonic_elapsed_micros : ℕ
  pub payload : ObservationPayload
  pub previous_hash : String

-- `ObservationRecord` has the fields of the input of its hash, and the hash.
pub record ObservationRecord : Type 0 where
  pub input : RecordHashInput
  pub record_hash : String

pub data AppendFailure : Type 0 where
  encode : String → AppendFailure
  record_limit record_too_large : AppendFailure
  unexpected_producer_sequence : ℕ → ℕ → AppendFailure
  write : String → AppendFailure

pub record JournalSummary : Type 0 where
  pub record_count : ℕ
  pub last_record_hash : Option String

-- The libraries that the journal calls: `serde_json` for the two encodings, and `blake3`.
pub record Encoders : Type 0 where
  pub hash_input_to_vec : RecordHashInput → Result String (List ℕ)
  pub record_to_vec : ObservationRecord → Result String (List ℕ)
  pub blake3_hex : List ℕ → String
