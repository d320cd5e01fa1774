-- ===== src/Journal/Writer.antt =====
-- crates/tiv-runtime/src/journal.rs: `build_record` and `run_writer`. The requests are the sequence in
-- which the channel delivers them, each with what its durable write meets: none, or an error with
-- how much of the line it leaves in the file.
use tx_proof.Common.{
  ℕ, ◌+◌, ◌^◌, Option, none, some, List, [], ◌∷◌, ◌++◌, length, take, String, Result, ok, err,
  ◌>>=◌, map_err, ltb, ◌==◌, if◌then◌else◌, lookup, insert_entry,
}
use tx_proof.Journal.Types.{
  observation_schema_version, genesis_hash, max_record_bytes, ObservationProducer,
  producer_discrete, Observation, parts, RecordHashInput, ObservationRecord, AppendFailure, encode,
  record_limit, record_too_large, unexpected_producer_sequence, write, JournalSummary, Encoders,
}

abbrev pub newline : ℕ
newline = 10

-- `u64::checked_add(1)`
abbrev pub next_sequence : ℕ → Option ℕ
next_sequence n = if ltb (n + 1) (2 ^ 64) then some (n + 1) else none

abbrev pub or_zero : Option ℕ → ℕ
or_zero none = 0
or_zero (some n) = n

-- The variables of the writer, with the bytes of the file.
pub record WriterState : Type 0 where
  pub record_count : ℕ
  pub previous_hash : String
  pub producer_sequences : List (ObservationProducer × ℕ)
  pub file : List ℕ

abbrev pub new_writer : WriterState
new_writer = record {
  record_count = 0;
  previous_hash = genesis_hash;
  producer_sequences = [];
  file = [];
}

-- A request is answered and the loop goes on, or the writer stops, with a last answer or without.
pub data WriterStep : Type 0 where
  answered : Result AppendFailure ObservationRecord → WriterState → WriterStep
  stopped : Option AppendFailure → String → WriterState → WriterStep

-- `write_all`, `flush` or `sync_data` fails when the first `kept` bytes of the line are in the file.
pub record WriteFailure : Type 0 where
  pub message : String
  pub kept : ℕ

pub record AppendRequest : Type 0 where
  pub observation : Observation
  pub write_error : Option WriteFailure

abbrev pub hash_input : Observation → ℕ → String → RecordHashInput
hash_input observation observed_sequence previous_hash = record {
  schema_version = observation_schema_version;
  observed_sequence = observed_sequence;
  run_id = observation.context.run;
  case_id = observation.context.case_name;
  action_id = observation.context.action;
  producer = observation.producer;
  producer_sequence = observation.producer_sequence;
  observation_kind = (parts observation.event).0;
  monotonic_elapsed_micros = observation.monotonic_elapsed_micros;
  payload = (parts observation.event).1;
  previous_hash = previous_hash;
}

-- The state after a durable write
abbrev pub record_written : WriterState → ObservationRecord → List ℕ → WriterState
record_written state record' encoded = record {
  record_count = state.record_count + 1;
  previous_hash = record'.record_hash;
  producer_sequences =
      insert_entry producer_discrete state.producer_sequences record'.input.producer
        record'.input.producer_sequence;
  file = state.file ++ encoded;
}

-- The state after a write that fails: no variable changes, but the file may.
abbrev pub left_behind : WriterState → List ℕ → WriteFailure → WriterState
left_behind state encoded failure = record state { file = state.file ++ take failure.kept encoded }

abbrev pub write_record :
    WriterState → ObservationRecord → List ℕ → Option WriteFailure → WriterStep
write_record state record' encoded (some failure) =
    stopped (some (write failure.message)) failure.message (left_behind state encoded failure)
write_record state record' encoded none =
    answered (ok record') (record_written state record' encoded)

abbrev pub sequence_of : WriterState → ObservationProducer → ℕ
sequence_of state producer = or_zero (lookup producer_discrete state.producer_sequences producer)

-- What the callers got, the state in which the loop was left, and the result of the task.
pub record WriterRun : Type 0 where
  pub replies : List (Option (Result AppendFailure ObservationRecord))
  pub final : WriterState
  pub result : Result String JournalSummary

abbrev pub summary : WriterState → JournalSummary
summary state = record {
  record_count = state.record_count;
  last_record_hash = if ltb 0 state.record_count then some state.previous_hash else none;
}

abbrev pub finish_writer : WriterState → Option String → WriterRun
finish_writer state none = record { replies = []; final = state; result = ok (summary state) }
finish_writer state (some message) = record { replies = []; final = state; result = err message }

abbrev pub last_reply : Option AppendFailure → Option (Result AppendFailure ObservationRecord)
last_reply none = none
last_reply (some failure) = some (err failure)

abbrev pub add_reply : Result AppendFailure ObservationRecord → WriterRun → WriterRun
add_reply reply run = record {
  replies = some reply ∷ run.replies;
  final = run.final;
  result = run.result;
}

-- Once the writer has stopped no request is answered any more.
abbrev pub unanswered : List AppendRequest → List (Option (Result AppendFailure ObservationRecord))
unanswered [] = []
unanswered (request ∷ requests) = none ∷ unanswered requests

abbrev pub after_step :
    WriterState → List AppendRequest → (WriterState → WriterRun) → WriterStep → WriterRun
after_step state requests rest (answered reply next) = add_reply reply (rest next)
after_step state requests rest (stopped failure message final) = record {
  replies = last_reply failure ∷ unanswered requests;
  final = final;
  result = err message;
}

abbrev pub encode_record :
    WriterState → ObservationRecord → Result String (List ℕ) → Option WriteFailure → WriterStep
encode_record state record' (err message) write_error = answered (err (encode message)) state
encode_record state record' (ok encoded) write_error =
    let line = encoded ++ newline ∷ [] in
    if ltb max_record_bytes (length line)
    then answered (err record_too_large) state
    else write_record state record' line write_error

module _ (encoders : Encoders) where
  unfoldable pub build_record : Observation → ℕ → String → Result AppendFailure ObservationRecord
  build_record observation observed_sequence previous_hash = do
    let input = hash_input observation observed_sequence previous_hash
    canonical ← map_err encode (encoders.hash_input_to_vec input)
    ok (record { input = input; record_hash = encoders.blake3_hex canonical })

  abbrev pub append_built :
      WriterState → Result AppendFailure ObservationRecord → Option WriteFailure → WriterStep
  append_built state (err failure) write_error = answered (err failure) state
  append_built state (ok record') write_error =
      encode_record state record' (encoders.record_to_vec record') write_error

  abbrev pub append_numbered : WriterState → AppendRequest → Option ℕ → WriterStep
  append_numbered state request none = stopped none "observation sequence exhausted" state
  append_numbered state request (some observed_sequence) =
      append_built state (build_record request.observation observed_sequence state.previous_hash)
        request.write_error

  abbrev pub append_expected : WriterState → AppendRequest → Option ℕ → WriterStep
  append_expected state request none = stopped none "producer observation sequence exhausted" state
  append_expected state request (some expected) =
      let received = request.observation.producer_sequence in
      if received == expected
      then append_numbered state request (next_sequence state.record_count)
      else answered (err (unexpected_producer_sequence expected received)) state

  -- The body of the loop of `run_writer`
  unfoldable pub handle_request : ℕ → WriterState → AppendRequest → WriterStep
  handle_request max_records state request =
      if state.record_count == max_records
      then answered (err record_limit) state
      else append_expected state request
          (next_sequence (sequence_of state request.observation.producer))

  unfoldable pub run_writer : ℕ → List AppendRequest → WriterState → Option String → WriterRun
  run_writer max_records [] state sync_error = finish_writer state sync_error
  run_writer max_records (request ∷ requests) state sync_error =
      after_step state requests (λ next. run_writer max_records requests next sync_error)
        (handle_request max_records state request)
