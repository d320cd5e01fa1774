-- ===== src/Journal/Runs.antt =====
-- crates/tiv-runtime/src/journal.rs: what a run of the writer leaves.
use tx_proof.Common.{
  ℕ, ◌+◌, ◌≤◌, ◌≡◌, ◌≢◌, refl, sym, ap, ◌∙◌, subst, arith, Option, none, some, List, [], ◌∷◌, ◌++◌,
  length, String, Result, ok, err, holds, if◌then◌else◌, inl, inr, ◌⊎◌, take, Member, ◌<◌, ltb,
  Bool-cases,
}
use mathlib.Core.List.{append_assoc, append-nil}
use tx_proof.Journal.Types.{
  ObservationProducer, producer_discrete, ObservationRecord, AppendFailure, JournalSummary,
  Encoders,
}
use tx_proof.Journal.Writer.{
  WriterState, WriterStep, answered, stopped, WriteFailure, AppendRequest, sequence_of,
  handle_request, WriterRun, summary, after_step, add_reply, last_reply, finish_writer, unanswered,
  run_writer,
}
use tx_proof.Journal.Chain.{IsHashed, IsLine, IsAppended, IsAnswer, handle_request-IsAnswer}

-- The records among the answers, in order.
abbrev pub cons_accepted :
    Option (Result AppendFailure ObservationRecord)
    → List ObservationRecord
    → List ObservationRecord
cons_accepted (some (ok r)) records = r ∷ records
cons_accepted _ records = records

abbrev pub accepted :
    List (Option (Result AppendFailure ObservationRecord)) → List ObservationRecord
accepted [] = []
accepted (reply ∷ replies) = cons_accepted reply (accepted replies)

abbrev pub last_hash : String → List ObservationRecord → String
last_hash h [] = h
last_hash h (r ∷ records) = last_hash r.record_hash records

-- The sequences that one producer gave to its records.
abbrev pub sequences_of : ObservationProducer → List ObservationRecord → List ℕ
sequences_of p [] = []
sequences_of p (r ∷ records) =
    let others = sequences_of p records in
    if holds (producer_discrete r.input.producer p)
    then r.input.producer_sequence ∷ others
    else others

abbrev pub CountsFrom : ℕ → List ℕ → Type 0
CountsFrom n [] = Unit
CountsFrom n (x ∷ xs) = (x ≡ n) × CountsFrom (n + 1) xs

accepted-unanswered : (requests : List AppendRequest) → accepted (unanswered requests) ≡ []
accepted-unanswered [] = refl
accepted-unanswered (request ∷ requests) = accepted-unanswered requests

CountsFrom-cons :
    (s s' : WriterState) (r : ObservationRecord) (records : List ObservationRecord)
    (p : ObservationProducer)
    → sequence_of s' r.input.producer ≡ r.input.producer_sequence
    → ((q : ObservationProducer) → q ≢ r.input.producer → sequence_of s' q ≡ sequence_of s q)
    → r.input.producer_sequence ≡ sequence_of s r.input.producer + 1
    → CountsFrom (sequence_of s' p + 1) (sequences_of p records)
    → CountsFrom (sequence_of s p + 1) (sequences_of p (r ∷ records))
CountsFrom-cons s s' r records p same other next rest =
    let others = sequences_of p records in
    let sequence = r.input.producer_sequence in
    elim (producer_discrete r.input.producer p)
      as (λ d. CountsFrom (sequence_of s p + 1) (if holds d then sequence ∷ others else others)) [
        | yes q ↦
            let here : sequence ≡ sequence_of s p + 1 =
              subst (λ k. sequence ≡ sequence_of s k + 1) q next in
            let there : sequence_of s' p ≡ sequence =
              subst (λ k. sequence_of s' k ≡ sequence) q same in
            (here, subst (λ k. CountsFrom (k + 1) others) (there ∙ here) rest)
        | no q ↦ subst (λ k. CountsFrom (k + 1) others) (other p (λ e. q (sym e))) rest
      ]

-- The lines of the file, end to end.
abbrev pub joined : List (List ℕ) → List ℕ
joined [] = []
joined (line ∷ lines) = line ++ joined lines

unchanged : (s : WriterState) → s ≡ record s { file = s.file ++ [] }
unchanged s = ap (λ bytes. record s { file = bytes }) (sym (append-nil s.file))

module _ (encoders : Encoders) where
  -- Numbered from `n`, each with the hash of the one before and its own.
  abbrev pub IsChain : ℕ → String → List ObservationRecord → Type 0
  IsChain n h [] = Unit
  IsChain n h (r ∷ records) =
      (r.input.observed_sequence ≡ n)
      × (r.input.previous_hash ≡ h)
      × IsHashed encoders r
      × IsChain (n + 1) r.record_hash records

  abbrev pub AreLines : List ObservationRecord → List (List ℕ) → Type 0
  AreLines [] [] = Unit
  AreLines (r ∷ records) (line ∷ lines) = IsLine encoders r line × AreLines records lines
  AreLines _ _ = ⊥

  -- What is behind the lines of the accepted records: nothing, unless the run ended with a write that
  -- failed, which may leave a part or all of one more line.
  abbrev pub IsRest : List AppendRequest → WriterRun → List ℕ → Type 0
  IsRest requests run rest =
      (rest ≡ [])
      ⊎ ((request : AppendRequest) × (failed : WriteFailure) × (r : ObservationRecord)
          × (line : List ℕ) × Member request requests
          × (request.write_error ≡ some failed)
          × (run.result ≡ err failed.message)
          × IsLine encoders r line
          × (rest ≡ take failed.kept line))

  -- The count and the hash that a summary has to give.
  abbrev pub Summarises : ℕ → String → JournalSummary → Type 0
  Summarises n h summed =
      (summed.record_count ≡ n)
      × (((n ≡ 0) × (summed.last_record_hash ≡ none))
          ⊎ ((0 < n) × (summed.last_record_hash ≡ some h)))

  pub record IsJournal (max_records : ℕ) (requests : List AppendRequest) (s : WriterState)
      (run : WriterRun) : Type 0 where
    pub chain : IsChain (s.record_count + 1) s.previous_hash (accepted run.replies)
    pub counted : run.final.record_count ≡ s.record_count + length (accepted run.replies)
    pub bounded : s.record_count ≤ max_records → run.final.record_count ≤ max_records
    pub last : run.final.previous_hash ≡ last_hash s.previous_hash (accepted run.replies)
    pub lines : List (List ℕ)
    pub rest : List ℕ
    pub in_file : run.final.file ≡ s.file ++ (joined lines ++ rest)
    pub encoded : AreLines (accepted run.replies) lines
    pub behind : IsRest requests run rest
    pub producers :
        (p : ObservationProducer)
        → CountsFrom (sequence_of s p + 1) (sequences_of p (accepted run.replies))
    pub summarised :
        (summed : JournalSummary)
        → run.result ≡ ok summed
        → Summarises
            (s.record_count + length (accepted run.replies))
            (last_hash s.previous_hash (accepted run.replies))
            summed

  IsRest-cons :
      (request : AppendRequest) (requests : List AppendRequest) (run : WriterRun)
      (reply : Result AppendFailure ObservationRecord) (rest : List ℕ)
      → IsRest requests run rest
      → IsRest (request ∷ requests) (add_reply reply run) rest
  IsRest-cons request requests run reply rest (inl e) = inl e
  IsRest-cons request requests run reply rest (inr (q, failed, r, line, m, e, f, w, k)) =
      inr (q, failed, r, line, inr m, e, f, w, k)

  module _ (max_records : ℕ) where
    IsJournal-skip :
        (request : AppendRequest) (requests : List AppendRequest) (s : WriterState)
        (failure : AppendFailure) (run : WriterRun)
        → IsJournal max_records requests s run
        → IsJournal max_records (request ∷ requests) s (add_reply (err failure) run)
    IsJournal-skip request requests s failure run h = record {
      chain = h.chain;
      counted = h.counted;
      bounded = h.bounded;
      last = h.last;
      lines = h.lines;
      rest = h.rest;
      in_file = h.in_file;
      encoded = h.encoded;
      behind = IsRest-cons request requests run (err failure) h.rest h.behind;
      producers = h.producers;
      summarised = h.summarised;
    }

    IsJournal-add :
        (request : AppendRequest) (requests : List AppendRequest) (s s' : WriterState)
        (r : ObservationRecord) (run : WriterRun)
        → IsAppended encoders max_records s request r s'
        → IsJournal max_records requests s' run
        → IsJournal max_records (request ∷ requests) s (add_reply (ok r) run)
    IsJournal-add request requests s s' r run a h =
        let sequence = ap (λ i. i.producer_sequence) a.input in
        let producer = ap (λ i. i.producer) a.input in
        let at : r.input.producer_sequence ≡ sequence_of s r.input.producer + 1 =
          sequence ∙ a.producer_next ∙ ap (λ p. sequence_of s p + 1) (sym producer) in
        let counted = h.counted in
        let one = a.counted in
        let records = accepted run.replies in
        record {
          chain = (
            ap (λ i. i.observed_sequence) a.input,
            ap (λ i. i.previous_hash) a.input,
            a.hashed,
            subst (λ n. IsChain (n + 1) r.record_hash records) a.counted
                (subst (λ k. IsChain (s'.record_count + 1) k records) a.chained h.chain),
          );
          counted = omega (arith, counted, one);
          bounded = λ fits. let room = a.room in h.bounded (ground arith);
          last = h.last ∙ ap (λ k. last_hash k records) a.chained;
          lines = a.line ∷ h.lines;
          rest = h.rest;
          in_file =
              h.in_file
              ∙ ap (λ bytes. bytes ++ (joined h.lines ++ h.rest)) a.stored
              ∙ append_assoc s.file a.line (joined h.lines ++ h.rest)
              ∙ ap (λ bytes. s.file ++ bytes) (sym (append_assoc a.line (joined h.lines) h.rest));
          encoded = (a.written, h.encoded);
          behind = IsRest-cons request requests run (ok r) h.rest h.behind;
          producers = λ p. CountsFrom-cons s s' r records p a.sequenced a.others at (h.producers p);
          summarised = λ summed e.
              let size : s'.record_count + length records ≡ s.record_count + length (r ∷ records) =
                omega (arith, one) in
              subst (λ n. Summarises n (last_hash r.record_hash records) summed) size
                (subst
                  (λ k. Summarises (s'.record_count + length records) (last_hash k records) summed)
                  a.chained (h.summarised summed e));
        }

    IsJournal-none :
        (requests : List AppendRequest) (s final : WriterState)
        (replies : List (Option (Result AppendFailure ObservationRecord)))
        (result : Result String JournalSummary) (rest : List ℕ)
        → accepted replies ≡ []
        → final ≡ record s { file = s.file ++ rest }
        → IsRest requests (record { replies = replies; final = final; result = result }) rest
        → ((summed : JournalSummary)
            → result ≡ ok summed
            → Summarises s.record_count s.previous_hash summed)
        → IsJournal max_records requests s
            (record { replies = replies; final = final; result = result })
    IsJournal-none requests s final replies result rest e f behind summarised = record {
      chain = subst (IsChain (s.record_count + 1) s.previous_hash) (sym e) tt;
      counted =
          let size = ap length e in
          let same = ap (λ x. x.record_count) f in omega (arith, size, same);
      bounded = λ fits. let same = ap (λ x. x.record_count) f in omega (arith, same);
      last = ap (λ x. x.previous_hash) f ∙ ap (last_hash s.previous_hash) (sym e);
      lines = [];
      rest = rest;
      in_file = ap (λ x. x.file) f;
      encoded = subst (λ records. AreLines records []) (sym e) tt;
      behind = behind;
      producers = λ p.
          subst (λ records. CountsFrom (sequence_of s p + 1) (sequences_of p records)) (sym e) tt;
      summarised = λ summed q.
          subst
            (λ records.
              Summarises (s.record_count + length records) (last_hash s.previous_hash records)
                summed)
            (sym e)
            (subst (λ n. Summarises n s.previous_hash summed) (omega arith) (summarised summed q));
    }

    accepted-last :
        (failure : Option AppendFailure) (requests : List AppendRequest)
        → accepted (last_reply failure ∷ unanswered requests) ≡ []
    accepted-last none requests = accepted-unanswered requests
    accepted-last (some failure) requests = accepted-unanswered requests

    IsJournal-after :
        (s : WriterState) (request : AppendRequest) (requests : List AppendRequest)
        (rest : WriterState → WriterRun) (step : WriterStep)
        → IsAnswer encoders max_records s request step
        → ((next : WriterState) → IsJournal max_records requests next (rest next))
        → IsJournal max_records (request ∷ requests) s (after_step s requests rest step)
    unfolding IsAnswer
    IsJournal-after s request requests rest (answered (ok r) next) a h =
        IsJournal-add request requests s next r (rest next) a (h next)
    IsJournal-after s request requests rest (answered (err failure) next) a h =
        IsJournal-skip request requests s failure (rest next)
          (subst (λ n. IsJournal max_records requests n (rest next)) a.0 (h next))
    IsJournal-after s request requests rest (stopped none message final) (same, a) h =
        IsJournal-none (request ∷ requests) s final (none ∷ unanswered requests) (err message) []
          (accepted-last none requests) (same ∙ unchanged s) (inl refl) (λ summed e. cc)
    IsJournal-after s request requests rest (stopped (some failure) message final)
          (failed, r, line, e, f, g, b, written, stored) h =
        IsJournal-none (request ∷ requests) s final (some (err failure) ∷ unanswered requests)
          (err message) (take failed.kept line) (accepted-last (some failure) requests) stored
          (inr (request, failed, r, line, inl refl, e, ap err g, written, refl)) (λ summed q. cc)

    summary-Summarises : (s : WriterState) → Summarises s.record_count s.previous_hash (summary s)
    summary-Summarises s = elim (Bool-cases (ltb 0 s.record_count)) [
      | inl e ↦ (refl, inr (ground arith, ground arith))
      | inr e ↦ (refl, inl (ground arith, ground arith))
    ]

    finish-IsJournal :
        (s : WriterState) (sync_error : Option String)
        → IsJournal max_records [] s (finish_writer s sync_error)
    finish-IsJournal s none =
        IsJournal-none [] s s [] (ok (summary s)) [] refl (unchanged s) (inl refl) (λ summed e.
          subst (Summarises s.record_count s.previous_hash) (ground arith) (summary-Summarises s))
    finish-IsJournal s (some message) =
        IsJournal-none [] s s [] (err message) [] refl (unchanged s) (inl refl) (λ summed e. cc)

    -- Whatever requests come and whichever writes fail, the records that are accepted form one chain
    -- from the state on: numbered without gaps, each with the hash of the one before it and the hash
    -- of its own fields, and each producer's sequence without gaps. The file grows by exactly their
    -- lines, but for a part or all of one more line where the run ends with a write that failed. The
    -- bound on the records is kept. A summary has their number and, if there are any, the hash of the
    -- last one.
    pub run_writer-IsJournal :
        (requests : List AppendRequest) (s : WriterState) (sync_error : Option String)
        → IsJournal max_records requests s (run_writer encoders max_records requests s sync_error)
    unfolding run_writer
    run_writer-IsJournal [] s sync_error = finish-IsJournal s sync_error
    run_writer-IsJournal (request ∷ requests) s sync_error =
        IsJournal-after s request requests
          (λ next. run_writer encoders max_records requests next sync_error)
          (handle_request encoders max_records s request)
          (handle_request-IsAnswer encoders max_records s request)
          (λ next. run_writer-IsJournal requests next sync_error)
