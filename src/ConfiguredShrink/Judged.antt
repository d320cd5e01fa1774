-- ===== src/ConfiguredShrink/Judged.antt =====
-- crates/tiv-runtime/src/configured_shrink.rs: what an evaluation and the best candidate are to be.
use tx_proof.Common.{
  ℕ, ◌≤◌, ◌≡◌, refl, Bool, true, false, Option, none, some, List, [], ◌∷◌, All, Member,
  if◌then◌else◌,
}
use tx_proof.Shrink.Candidate.{ShrinkCandidate}
use tx_proof.Shrink.Rank.{rank}
use tx_proof.Reproduction.{FailureIdentity}
use tx_proof.Trace.Materialize.{CompiledShrinkTrace}
use tx_proof.ConfiguredShrink.Effects.{CandidateEvaluationArtifact, Environment}
use tx_proof.ConfiguredShrink.Evaluate.{CandidateEvaluation}
use tx_proof.ConfiguredShrink.Evaluated.{IsEvaluation, found_count}

pub All-weaken :
    {A : Type 0} (P Q : A → Type 0) (xs : List A) → ((x : A) → P x → Q x) → All P xs → All Q xs
All-weaken P Q [] f h = tt
All-weaken P Q (x ∷ xs) f h = (f x h.0, All-weaken P Q xs f h.1)

pub chosen :
    {A : Type 0} (P : A → Type 0) (test : Bool) (a b : A)
    → (test ≡ true → P a)
    → (test ≡ false → P b)
    → P (if test then a else b)
chosen P true a b yes_case no_case = yes_case refl
chosen P false a b yes_case no_case = no_case refl

-- The artifact is of an evaluation of a candidate by three attempts that the environment executed.
abbrev pub IsEvaluated :
    {W F : Type 0}
    → Environment W F
    → FailureIdentity
    → (ShrinkCandidate → List ℕ)
    → CandidateEvaluationArtifact
    → Type 0
IsEvaluated environment expected identity e =
    (c : ShrinkCandidate) × (evaluation : CandidateEvaluation) × IsEvaluation environment expected
      identity c evaluation
    × (e ≡ evaluation.artifact)

-- An evaluation of this identity gave this judgement.
abbrev pub IsBacked : List CandidateEvaluationArtifact → List ℕ → Bool → Type 0
IsBacked evaluations id accepted =
    (e : CandidateEvaluationArtifact) × Member e evaluations
    × (e.candidate_id ≡ id)
    × (e.accepted ≡ accepted)

-- The best candidate has an evaluation of which at least two attempts found the expected failure, and
-- the best trace is that of its first attempt.
abbrev pub IsReproduced :
    {W F : Type 0}
    → Environment W F
    → FailureIdentity
    → (ShrinkCandidate → List ℕ)
    → List CandidateEvaluationArtifact
    → Option CompiledShrinkTrace
    → Option ShrinkCandidate
    → Type 0
IsReproduced environment expected identity evaluations best_trace none = best_trace ≡ none
IsReproduced environment expected identity evaluations best_trace (some c) =
    (evaluation : CandidateEvaluation) × (of : IsEvaluation environment expected identity c
      evaluation)
    × Member evaluation.artifact evaluations
    × (best_trace ≡ some of.first.trace)
    × (2 ≤ found_count expected (of.first ∷ of.second ∷ of.third ∷ []))

-- No evaluation that was accepted is of a lower rank than the best candidate.
abbrev pub IsLeast : ℕ → CandidateEvaluationArtifact → Type 0
IsLeast best e = e.accepted ≡ true → best ≤ rank e.complexity
