-- ===== src/Journal/Chain.antt =====
-- crates/tiv-runtime/src/journal.rs: the records that the writer accepts.
use tx_proof.Common.{
  ℕ, ◌+◌, ◌^◌, ◌≤◌, ◌<◌, ◌≡◌, ◌≢◌, refl, sym, ap, subst, arith, Option, none, some, List, [], ◌∷◌,
  ◌++◌, length, String, Result, ok, err, ltb, ◌==◌, Bool-cases, Result-cases, inl, inr, ◌⊎◌, take,
  lookup-insert_cases,
}
use tx_proof.Journal.Types.{
  max_record_bytes, ObservationProducer, producer_discrete, ObservationRecord, AppendFailure,
  encode, record_limit, record_too_large, unexpected_producer_sequence, write, Encoders,
}
use tx_proof.Journal.Writer.{
  WriterState, WriterStep, answered, stopped, WriteFailure, AppendRequest, or_zero, next_sequence,
  build_record, sequence_of, newline, handle_request, encode_record, append_built, append_numbered,
  append_expected, record_written, hash_input,
}

sequence_of-written :
    (s : WriterState) (r : ObservationRecord) (line : List ℕ) (p : ObservationProducer)
    → ((p ≡ r.input.producer)
        × (sequence_of (record_written s r line) p ≡ r.input.producer_sequence))
      ⊎ ((p ≡ r.input.producer → ⊥) × (sequence_of (record_written s r line) p ≡ sequence_of s p))
sequence_of-written s r line p =
    elim (lookup-insert_cases producer_discrete s.producer_sequences p r.input.producer
      r.input.producer_sequence) [
        | inl (e, h) ↦ inl (e, ap or_zero h)
        | inr (n, h) ↦ inr (n, ap or_zero h)
      ]

sequence_of-same :
    (s : WriterState) (r : ObservationRecord) (line : List ℕ)
    → sequence_of (record_written s r line) r.input.producer ≡ r.input.producer_sequence
sequence_of-same s r line = elim (sequence_of-written s r line r.input.producer) [
  | inl (e, h) ↦ h
  | inr (n, h) ↦ absurd (n refl)
]

sequence_of-other :
    (s : WriterState) (r : ObservationRecord) (line : List ℕ) (p : ObservationProducer)
    → p ≢ r.input.producer
    → sequence_of (record_written s r line) p ≡ sequence_of s p
sequence_of-other s r line p differs = elim (sequence_of-written s r line p) [
  | inl (e, h) ↦ absurd (differs e)
  | inr (n, h) ↦ h
]

module _ (encoders : Encoders) where
  -- The record carries the hash of all its other fields.
  abbrev pub IsHashed : ObservationRecord → Type 0
  IsHashed r =
      (canonical : List ℕ) × (encoders.hash_input_to_vec r.input ≡ ok canonical)
      × (r.record_hash ≡ encoders.blake3_hex canonical)

  abbrev pub IsLine : ObservationRecord → List ℕ → Type 0
  IsLine r line =
      (encoded : List ℕ) × (encoders.record_to_vec r ≡ ok encoded)
      × (line ≡ encoded ++ newline ∷ [])
      × (length line ≤ max_record_bytes)

  -- What an accepted request does
  pub record IsAppended (max_records : ℕ) (s : WriterState) (request : AppendRequest)
      (r : ObservationRecord) (s' : WriterState) : Type 0 where
    pub room : s.record_count ≢ max_records
    pub input : r.input ≡ hash_input request.observation (s.record_count + 1) s.previous_hash
    pub hashed : IsHashed r
    pub producer_next :
        request.observation.producer_sequence ≡ sequence_of s request.observation.producer + 1
    pub durable : request.write_error ≡ none
    pub line : List ℕ
    pub written : IsLine r line
    pub stored : s'.file ≡ s.file ++ line
    pub counted : s'.record_count ≡ s.record_count + 1
    pub chained : s'.previous_hash ≡ r.record_hash
    pub sequenced : sequence_of s' r.input.producer ≡ r.input.producer_sequence
    pub others :
        (p : ObservationProducer) → p ≢ r.input.producer → sequence_of s' p ≡ sequence_of s p

  abbrev pub built : WriterState → AppendRequest → Result AppendFailure ObservationRecord
  built s request = build_record encoders request.observation (s.record_count + 1) s.previous_hash

  -- Why a request is refused
  abbrev pub IsCause : ℕ → WriterState → AppendRequest → AppendFailure → Type 0
  IsCause max_records s request record_limit = s.record_count ≡ max_records
  IsCause max_records s request (unexpected_producer_sequence expected received) =
      (s.record_count ≢ max_records)
      × (expected ≡ sequence_of s request.observation.producer + 1)
      × (received ≡ request.observation.producer_sequence)
      × (received ≢ expected)
  IsCause max_records s request (encode message) =
      (encoders.hash_input_to_vec
          (hash_input request.observation (s.record_count + 1) s.previous_hash)
        ≡ err message)
      ⊎ ((r : ObservationRecord) × (built s request ≡ ok r)
          × (encoders.record_to_vec r ≡ err message))
  IsCause max_records s request record_too_large =
      (r : ObservationRecord) × (built s request ≡ ok r)
      × (encoded : List ℕ) × (encoders.record_to_vec r ≡ ok encoded)
      × (max_record_bytes < length (encoded ++ newline ∷ []))
  IsCause max_records s request (write message) = ⊥

  -- Why the writer stops, and how: a write failed, which may leave a part of the line of the record in
  -- the file, or a sequence is exhausted.
  abbrev pub IsStop :
      WriterState → AppendRequest → Option AppendFailure → String → WriterState → Type 0
  IsStop s request (some failure) message s' =
      (failed : WriteFailure) × (r : ObservationRecord) × (line : List ℕ) × (request.write_error
        ≡ some failed)
      × (failure ≡ write message)
      × (message ≡ failed.message)
      × (built s request ≡ ok r)
      × IsLine r line
      × (s' ≡ record s { file = s.file ++ take failed.kept line })
  IsStop s request none message s' =
      (s' ≡ s)
      × ((2 ^ 64 ≤ sequence_of s request.observation.producer + 1) ⊎ (2 ^ 64 ≤ s.record_count + 1))

  -- What each answer means
  unfoldable pub IsAnswer : ℕ → WriterState → AppendRequest → WriterStep → Type 0
  IsAnswer max_records s request (answered (ok r) s') = IsAppended max_records s request r s'
  IsAnswer max_records s request (answered (err failure) s') =
      (s' ≡ s) × IsCause max_records s request failure
  IsAnswer max_records s request (stopped failure message s') = IsStop s request failure message s'

  IsHashed-build :
      (request : AppendRequest) (n : ℕ) (h : String) (r : ObservationRecord)
      → build_record encoders request.observation n h ≡ ok r
      → (r.input ≡ hash_input request.observation n h) × IsHashed r
  unfolding build_record
  IsHashed-build request n h r e =
      elim (Result-cases (encoders.hash_input_to_vec (hash_input request.observation n h))) [
        | inr (message, f) ↦ absurd (ground arith)
        | inl (canonical, f) ↦
            let input = hash_input request.observation n h in
            let shape : record { input = input; record_hash = encoders.blake3_hex canonical } ≡ r =
              ground arith in
            subst (λ x. (x.input ≡ input) × IsHashed x) shape (refl, (canonical, f, refl))
      ]

  build-failure :
      (request : AppendRequest) (n : ℕ) (h : String) (failure : AppendFailure)
      → build_record encoders request.observation n h ≡ err failure
      → (message : String) × (failure ≡ encode message)
        × (encoders.hash_input_to_vec (hash_input request.observation n h) ≡ err message)
  unfolding build_record
  build-failure request n h failure e =
      elim (Result-cases (encoders.hash_input_to_vec (hash_input request.observation n h))) [
        | inr (message, f) ↦ (message, ground arith, f)
        | inl (canonical, f) ↦ absurd (ground arith)
      ]

  next_sequence-some : (n m : ℕ) → next_sequence n ≡ some m → m ≡ n + 1
  next_sequence-some n m h = ground arith

  next_sequence-none : (n : ℕ) → next_sequence n ≡ none → 2 ^ 64 ≤ n + 1
  next_sequence-none n h = ground arith

  module _ (max_records : ℕ) (s : WriterState) (request : AppendRequest) where
    IsAnswer-encode :
        (r : ObservationRecord) (encoded : Result String (List ℕ))
        (write_error : Option WriteFailure)
        → s.record_count ≢ max_records
        → request.observation.producer_sequence ≡ sequence_of s request.observation.producer + 1
        → built s request ≡ ok r
        → encoders.record_to_vec r ≡ encoded
        → request.write_error ≡ write_error
        → IsAnswer max_records s request (encode_record s r encoded write_error)
    unfolding IsAnswer
    IsAnswer-encode r (err message) write_error room next b e w = (refl, inr (r, b, e))
    IsAnswer-encode r (ok encoded) (some failed) room next b e w =
        elim (Bool-cases (ltb max_record_bytes (length (encoded ++ newline ∷ [])))) [
          | inl large ↦ rw large (refl, (r, b, encoded, e, ground arith))
          | inr fits ↦ rw fits (
            failed,
            r,
            encoded ++ newline ∷ [],
            w,
            refl,
            refl,
            b,
            (encoded, e, refl, ground arith),
            refl,
          )
        ]
    IsAnswer-encode r (ok encoded) none room next b e w =
        elim (Bool-cases (ltb max_record_bytes (length (encoded ++ newline ∷ [])))) [
          | inl large ↦ rw large (refl, (r, b, encoded, e, ground arith))
          | inr fits ↦
              let (input, hashed) =
                IsHashed-build request (s.record_count + 1) s.previous_hash r b in
              rw fits (record {
                room = room;
                input = input;
                hashed = hashed;
                producer_next = next;
                line = encoded ++ newline ∷ [];
                written = (encoded, e, refl, ground arith);
                durable = w;
                stored = refl;
                counted = refl;
                chained = refl;
                sequenced = sequence_of-same s r (encoded ++ newline ∷ []);
                others = λ p differs. sequence_of-other s r (encoded ++ newline ∷ []) p differs;
              })
        ]

    IsAnswer-built :
        (result : Result AppendFailure ObservationRecord)
        → s.record_count ≢ max_records
        → request.observation.producer_sequence ≡ sequence_of s request.observation.producer + 1
        → built s request ≡ result
        → IsAnswer max_records s request (append_built encoders s result request.write_error)
    unfolding IsAnswer
    IsAnswer-built (err failure) room next e =
        let (message, f, g) =
          build-failure request (s.record_count + 1) s.previous_hash failure e in
        (refl, subst (IsCause max_records s request) (sym f) (inl g))
    IsAnswer-built (ok r) room next e =
        IsAnswer-encode r (encoders.record_to_vec r) request.write_error room next e refl refl

    IsAnswer-numbered :
        (number : Option ℕ)
        → s.record_count ≢ max_records
        → request.observation.producer_sequence ≡ sequence_of s request.observation.producer + 1
        → next_sequence s.record_count ≡ number
        → IsAnswer max_records s request (append_numbered encoders s request number)
    unfolding IsAnswer
    IsAnswer-numbered none room next e = (refl, inr (next_sequence-none s.record_count e))
    IsAnswer-numbered (some n) room next e =
        let count = next_sequence-some s.record_count n e in
        IsAnswer-built (build_record encoders request.observation n s.previous_hash) room next
          (ap (λ k. build_record encoders request.observation k s.previous_hash) (sym count))

    IsAnswer-expected :
        (expected : Option ℕ)
        → s.record_count ≢ max_records
        → next_sequence (sequence_of s request.observation.producer) ≡ expected
        → IsAnswer max_records s request (append_expected encoders s request expected)
    unfolding IsAnswer
    IsAnswer-expected none room e =
        (refl, inl (next_sequence-none (sequence_of s request.observation.producer) e))
    IsAnswer-expected (some expected) room e =
        let next = next_sequence-some (sequence_of s request.observation.producer) expected e in
        elim (Bool-cases (request.observation.producer_sequence == expected)) [
          | inr other ↦ rw other (refl, (room, next, refl, λ same. ground arith))
          | inl same ↦
              rw same (IsAnswer-numbered (next_sequence s.record_count) room (ground arith) refl)
        ]

    -- A request is accepted with the next number, the hash before and its own, only if its write is
    -- durable; then its line ends the file and the counters and the hash go on. Or it is refused for
    -- the cause that the answer names, and nothing changes. Or the writer stops: because a sequence is
    -- exhausted, with nothing changed, or because the write failed, with a part or all of the line of
    -- the record left in the file.
    pub handle_request-IsAnswer :
        IsAnswer max_records s request (handle_request encoders max_records s request)
    unfolding IsAnswer handle_request
    handle_request-IsAnswer = elim (Bool-cases (s.record_count == max_records)) [
      | inl full ↦ rw full (refl, ground arith)
      | inr room ↦ rw room (
          IsAnswer-expected (next_sequence (sequence_of s request.observation.producer))
            (λ e. ground arith) refl)
    ]
