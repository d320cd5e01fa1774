-- ===== src/ConfiguredShrink/Evaluated.antt =====
-- crates/tiv-runtime/src/configured_shrink.rs: what `evaluate_candidate` gives.
use tx_proof.Common.{
  ℕ, ◌≡◌, refl, sym, ap, ◌∙◌, subst, arith, inl, inr, Bool-cases, Bool, Option, none, some, List,
  [], ◌∷◌, length, filter, ok, String, leb,
}
use tx_proof.Plan.Compiler.{PlannedCase}
use tx_proof.Reproduction.{FailureIdentity, matches}
use tx_proof.Shrink.Lineage.{ShrinkAction}
use tx_proof.Shrink.Candidate.{ShrinkCandidate}
use tx_proof.Shrink.Generator.{candidate_complexity, canonical_identity}
use tx_proof.Trace.Materialize.{CompiledShrinkTrace}
use tx_proof.ConfiguredShrink.Options.{ShrinkDeadline}
use tx_proof.ConfiguredShrink.Effects.{
  ConfiguredShrinkError, attempt_accounting, AttemptExecution, AttemptArtifact, Environment,
}
use tx_proof.ConfiguredShrink.Attempts.{matching_count, Attempts, no_attempts, present}
use tx_proof.ConfiguredShrink.Evaluate.{
  CandidateEvaluation, Observed, candidate_from, evaluate_candidate,
}
use tx_proof.ConfiguredShrink.Found.{finds}
use tx_proof.ConfiguredShrink.Observed.{SameButGates, IsRecord, Ran, IsObserved, observe-IsObserved}
use tx_proof.ConfiguredShrink.Yields.{Yields, Yields-bind, Yields-ok, given}

abbrev pub has_found : FailureIdentity → AttemptExecution CompiledShrinkTrace → Bool
has_found expected execution = finds expected execution.invariants

-- How many executions found the expected failure.
abbrev pub found_count : FailureIdentity → List (AttemptExecution CompiledShrinkTrace) → ℕ
found_count expected executions = length (filter (has_found expected) executions)

-- The environment executed three attempts at the candidate, with the same trace but for the gates. The
-- authority is the trace of the first one, the evidence is of the three, and the candidate is accepted
-- if two of them found the expected failure.
pub record IsEvaluation {W F : Type 0} (environment : Environment W F) (expected : FailureIdentity)
    (identity : ShrinkCandidate → List ℕ) (c : ShrinkCandidate) (evaluation : CandidateEvaluation)
    : Type 0 where
  pub first : AttemptExecution CompiledShrinkTrace
  pub second : AttemptExecution CompiledShrinkTrace
  pub third : AttemptExecution CompiledShrinkTrace
  pub ran : Ran environment c 1 first × Ran environment c 2 second × Ran environment c 3 third
  pub second_same : SameButGates first.trace second.trace
  pub third_same : SameButGates first.trace third.trace
  pub authority : evaluation.authority ≡ first.trace
  pub evidence :
      (a : AttemptArtifact) × (b : AttemptArtifact) × (d : AttemptArtifact)
      × (evaluation.artifact.attempts ≡ a ∷ b ∷ d ∷ [])
      × IsRecord expected 1 first a
      × IsRecord expected 2 second b
      × IsRecord expected 3 third d
  pub identified : evaluation.artifact.candidate_id ≡ identity c
  pub sized : evaluation.artifact.action_count ≡ length c.actions
  pub measured : evaluation.artifact.complexity ≡ candidate_complexity c
  pub counted :
      evaluation.artifact.matching_failure_count
      ≡ found_count expected (first ∷ second ∷ third ∷ [])
  pub judged :
      evaluation.artifact.accepted ≡ leb 2 (found_count expected (first ∷ second ∷ third ∷ []))

-- What the three rounds of the loop over the attempts leave.
record AreObserved {W F : Type 0} (environment : Environment W F) (expected : FailureIdentity)
    (c : ShrinkCandidate) (left : Attempts × Option CompiledShrinkTrace) : Type 0 where
  a : Observed CompiledShrinkTrace
  b : Observed CompiledShrinkTrace
  d : Observed CompiledShrinkTrace
  at_first : IsObserved environment expected c none 1 a
  at_second : IsObserved environment expected c (some a.trace) 2 b
  at_third : IsObserved environment expected c (some a.trace) 3 d
  artifacts : left.0.artifacts ≡ a.artifact ∷ b.artifact ∷ d.artifact ∷ []
  results : left.0.results ≡ a.result ∷ b.result ∷ d.result ∷ []
  authority : left.1 ≡ some a.trace

some-injective : {A : Type 0} {a b : A} → ◌≡◌ {A = Option A} (some a) (some b) → a ≡ b
some-injective h = ground arith

length-filter_cons :
    {A B : Type 0} (p : A → Bool) (q : B → Bool) (a : A) (x : B) (front : List A) (xs : List B)
    → p a ≡ q x
    → length (filter p front) ≡ length (filter q xs)
    → length (filter p (a ∷ front)) ≡ length (filter q (x ∷ xs))
length-filter_cons p q a x front xs same h = elim (Bool-cases (q x)) [
  | inl e ↦ ground arith
  | inr e ↦ ground arith
]

present-some :
    {F A : Type 0} (e : ConfiguredShrinkError F) (option : Option A) (a : A)
    → present e option ≡ ok a
    → option ≡ some a
present-some e none a h = cc
present-some e (some b) a h = ground arith

module _ {W F : Type 0} (environment : Environment W F) (deadline : ShrinkDeadline)
    (configured_case_timeout : ℕ) (expected : FailureIdentity)
    (to_vec : String × PlannedCase × List ShrinkAction → List ℕ)
    (blake3_hash : List ℕ → List ℕ) where
  candidate_from-AreObserved :
      (c : ShrinkCandidate) (w : W)
      → Yields (AreObserved environment expected c) (
          candidate_from environment deadline configured_case_timeout expected to_vec blake3_hash c
            3 1 no_attempts none w)
  unfolding candidate_from
  candidate_from-AreObserved c w =
      let P = AreObserved environment expected c in
      let observe =
        observe-IsObserved environment deadline configured_case_timeout expected to_vec blake3_hash
          c in
      Yields-bind P _ _ (λ a w1 e. Yields-bind P _ _ (λ b w2 f. Yields-bind P _ _ (λ d w3 g.
        record {
          a = a;
          b = b;
          d = d;
          at_first =
              Yields-ok (IsObserved environment expected c none 1) _ a w1 (observe none 1 w) e;
          at_second =
              Yields-ok (IsObserved environment expected c (some a.trace) 2) _ b w2
                (observe (some a.trace) 2 w1) f;
          at_third =
              Yields-ok (IsObserved environment expected c (some a.trace) 3) _ d w3
                (observe (some a.trace) 3 w2) g;
          artifacts = refl;
          results = refl;
          authority = refl;
        })))

  matching-found :
      (c : ShrinkCandidate) (attempts : Attempts) (authority : Option CompiledShrinkTrace)
      (o : AreObserved environment expected c (attempts, authority))
      → matching_count attempts.results expected
        ≡ found_count expected
            (o.at_first.execution ∷ o.at_second.execution ∷ o.at_third.execution ∷ [])
  unfolding matching_count
  matching-found c attempts authority o =
      let x = o.at_first.execution in
      let y = o.at_second.execution in
      let z = o.at_third.execution in
      let p = matches expected in
      let q = has_found expected in
      ap (λ results. length (filter (matches expected) results)) o.results
      ∙ length-filter_cons p q o.a.result x (o.b.result ∷ o.d.result ∷ []) (y ∷ z ∷ [])
          o.at_first.matched
          (length-filter_cons p q o.b.result y (o.d.result ∷ []) (z ∷ []) o.at_second.matched
            (length-filter_cons p q o.d.result z [] [] o.at_third.matched refl))

  evaluate_candidate-Yields :
      (c : ShrinkCandidate) (w : W)
      → Yields (IsEvaluation environment expected (canonical_identity to_vec blake3_hash) c) (
          evaluate_candidate environment deadline configured_case_timeout expected to_vec
            blake3_hash c w)
  unfolding evaluate_candidate
  evaluate_candidate-Yields c w =
      let P = IsEvaluation environment expected (canonical_identity to_vec blake3_hash) c in
      Yields-bind P _ _ (λ _ w1 _. Yields-bind P _ _ (λ (attempts, authority) w2 e.
        let o =
          Yields-ok (AreObserved environment expected c) _ (attempts, authority) w2
            (candidate_from-AreObserved c w1) e in
        Yields-bind P _ _ (λ _ w3 _. Yields-bind P _ _ (λ trace w4 f.
          let kept = present-some attempt_accounting authority trace (given _ (ok trace) w3 w4 f) in
          let same : trace ≡ o.a.trace = some-injective (sym kept ∙ o.authority) in
          let like : (t : CompiledShrinkTrace)
              → SameButGates o.a.trace t
              → SameButGates o.at_first.execution.trace t =
            λ t. subst (λ x. SameButGates x t) o.at_first.trace in
          let count = matching-found c attempts authority o in
          record {
            first = o.at_first.execution;
            second = o.at_second.execution;
            third = o.at_third.execution;
            ran = (o.at_first.ran, o.at_second.ran, o.at_third.ran);
            second_same = like o.at_second.execution.trace o.at_second.same;
            third_same = like o.at_third.execution.trace o.at_third.same;
            authority = same ∙ o.at_first.trace;
            evidence = (
              o.a.artifact, o.b.artifact, o.d.artifact, o.artifacts, o.at_first.recorded,
              o.at_second.recorded, o.at_third.recorded,
            );
            identified = refl;
            sized = refl;
            measured = refl;
            counted = count;
            judged = ap (leb 2) count;
          }))))

  -- A candidate is evaluated by three attempts that the environment executed, with the same trace but
  -- for the gates; the authority is the trace of the first one, and the evidence tells of each which
  -- invariants it observed and whether it found the expected failure. The candidate is accepted exactly
  -- if at least two of the executions violated the expected invariant at the expected checkpoint.
  pub evaluate_candidate-IsEvaluation :
      (c : ShrinkCandidate) (w : W) (e : CandidateEvaluation) (w' : W)
      → evaluate_candidate environment deadline configured_case_timeout expected to_vec blake3_hash
          c w
        ≡ (ok e, w')
      → IsEvaluation environment expected (canonical_identity to_vec blake3_hash) c e
  evaluate_candidate-IsEvaluation c w e w' h =
      Yields-ok (IsEvaluation environment expected (canonical_identity to_vec blake3_hash) c) _ e w'
        (evaluate_candidate-Yields c w) h
