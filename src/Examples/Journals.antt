-- ===== src/Examples/Journals.antt =====
-- The writer of the journal at concrete requests.
use tx_proof.Common.{ℕ, ◌≡◌, refl, Option, none, some, List, [], ◌∷◌, ok, err}
use tx_proof.Journal.Types.{
  valid_id, JournalContext, new_context, invalid_journal_id, ObservationProducer, driver, fixture,
  action_intent, ObservationRecord, Encoders, producer_discrete,
}
use tx_proof.Journal.Writer.{
  AppendRequest, WriteFailure, WriterRun, new_writer, build_record, handle_request, run_writer,
}
use tx_proof.Journal.Chain.{IsAnswer, handle_request-IsAnswer}
use tx_proof.Journal.Runs.{accepted, IsJournal, run_writer-IsJournal}

-- Stand-ins for the libraries
abbrev encoders : Encoders
encoders = record {
  hash_input_to_vec = λ input. ok (input.observed_sequence ∷ input.producer_sequence ∷ []);
  record_to_vec = λ r. ok (r.input.observed_sequence ∷ []);
  blake3_hex = λ bytes. "f00d";
}

abbrev context : JournalContext
context = record { run = "run-1"; case_name = "case_1"; action = 4 }

context_made : new_context "run-1" "case_1" 4 ≡ ok context
unfolding new_context valid_id
context_made = refl

spaced_refused : new_context "run 1" "case_1" 4 ≡ err invalid_journal_id
unfolding new_context valid_id
spaced_refused = refl

abbrev request : ObservationProducer → ℕ → Option WriteFailure → AppendRequest
request producer sequence write_error = record {
  observation = record {
    context = context;
    producer = producer;
    producer_sequence = sequence;
    monotonic_elapsed_micros = 5;
    event = action_intent;
  };
  write_error = write_error;
}

-- A repeated sequence is refused, a failed write ends the run.
abbrev requests : List AppendRequest
requests =
    request driver 1 none
    ∷ request driver 1 none
    ∷ request fixture 1 none
    ∷ request driver 2 (some (record { message = "disk full"; kept = 1 }))
    ∷ request driver 3 none
    ∷ []

abbrev finished : WriterRun
finished = run_writer encoders 9 requests new_writer none

abbrev sequences : List ObservationRecord → List ℕ
sequences [] = []
sequences (r ∷ records) = r.input.observed_sequence ∷ sequences records

two_accepted : sequences (accepted finished.replies) ≡ 1 ∷ 2 ∷ []
unfolding run_writer handle_request build_record producer_discrete
two_accepted = refl

disk_full : finished.result ≡ err "disk full"
unfolding run_writer handle_request build_record producer_discrete
disk_full = refl

-- A byte of the last line is left behind the two whole ones.
file_left : finished.final.file ≡ 1 ∷ 10 ∷ 2 ∷ 10 ∷ 3 ∷ []
unfolding run_writer handle_request build_record producer_discrete
file_left = refl

run_writer-IsJournal_example : IsJournal encoders 9 requests new_writer finished
run_writer-IsJournal_example = run_writer-IsJournal encoders 9 requests new_writer none

handle_request-IsAnswer_example :
    IsAnswer encoders 9 new_writer
      (request driver 1 none)
      (handle_request encoders 9 new_writer (request driver 1 none))
handle_request-IsAnswer_example =
    handle_request-IsAnswer encoders 9 new_writer (request driver 1 none)
