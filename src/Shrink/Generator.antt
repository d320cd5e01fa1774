-- ===== src/Shrink/Generator.antt =====
-- crates/tiv-core/src/shrink.rs: `CandidateGenerator` with its loops, which stop at one candidate more
-- than the limit. The bytes of a candidate (`serde_json`) and their hash (`blake3`) are parameters.
use tx_proof.Common.{
  ℕ, ◌+◌, Bool, true, false, not, holds, Option, none, some, List, [], ◌∷◌, ◌++◌, length, get_elem?,
  take, map, Result, ok, err, ◌>>=◌, ◌>>◌, reject_if, contains, ltb, ◌==◌, if◌then◌else◌, String,
  ℕ_discrete,
}
use tx_proof.Decision.{RandomSource}
use tx_proof.Plan.Compiler.{PlannedCase}
use tx_proof.Plan.Artifact.{planned_discrete}
use tx_proof.Plan.Replay.{normalize_replay_action_kinds}
use tx_proof.Shrink.Complexity.{ShrinkComplexity, complexity, is_simpler}
use tx_proof.Shrink.Lineage.{ShrinkError, ShrinkAction, source_mismatch}
use tx_proof.Shrink.Candidate.{
  ShrinkCandidate, entry_kinds, action_kinds, new_candidate, validate_seeded_source,
  validate_candidate,
}
use tx_proof.Shrink.Proposals.{all_chunk_proposals, removal_proposals, entry_proposals}

pub data InvalidCandidateLimit : Type 0 where
  is_zero above_v1_maximum : InvalidCandidateLimit

abbrev pub max_shrink_candidates : ℕ
max_shrink_candidates = 60

pub record CandidateLimit : Type 0 where
  pub value : ℕ

abbrev pub new_limit : ℕ → Result InvalidCandidateLimit CandidateLimit
new_limit value = do
  reject_if (value == 0) is_zero
  reject_if (ltb max_shrink_candidates value) above_v1_maximum
  ok (record { value = value })

abbrev pub default_limit : CandidateLimit
default_limit = record { value = max_shrink_candidates }

pub record CandidateBatch : Type 0 where
  pub candidates : List ShrinkCandidate
  pub truncated : Bool

pub record CandidateGenerator : Type 0 where
  pub source : PlannedCase
  pub source_complexity : ShrinkComplexity

-- `candidates` and `identities`, which the loops share.
pub record Frontier : Type 0 where
  pub identities : List (List ℕ)
  pub found : List ShrinkCandidate

abbrev pub empty_frontier : Frontier
empty_frontier = record { identities = []; found = [] }

unfoldable pub identity_discrete : Discrete (List ℕ)
unfolding ℕ_discrete
identity_discrete = hlevel ℕ_discrete

abbrev pub candidate_complexity : ShrinkCandidate → ShrinkComplexity
candidate_complexity candidate = complexity (entry_kinds candidate.schedule)

abbrev pub cons_entry : Option ShrinkAction → List ShrinkAction → List ShrinkAction
cons_entry none entries = entries
cons_entry (some entry) entries = entry ∷ entries

-- `retained.into_iter().map(|index| proposal[index])`; the indices are within the proposal.
abbrev pub pick_entries : List ShrinkAction → List ℕ → List ShrinkAction
pick_entries proposal [] = []
pick_entries proposal (index ∷ indices) =
    cons_entry (get_elem? proposal index) (pick_entries proposal indices)

abbrev pub keep_simpler : ShrinkComplexity → ShrinkCandidate → Option ShrinkCandidate
keep_simpler current candidate =
    if is_simpler (candidate_complexity candidate) current then some candidate else none

abbrev pub identity_tag : String
identity_tag = "dev.txproof.shrink-candidate-identity.v1"

module _ (to_vec : String × PlannedCase × List ShrinkAction → List ℕ)
    (blake3_hash : List ℕ → List ℕ) where
  abbrev pub canonical_identity : ShrinkCandidate → List ℕ
  canonical_identity candidate =
      blake3_hash (to_vec (identity_tag, candidate.source, candidate.schedule))

  -- The end of `push_candidate`
  abbrev pub insert_candidate : Option ShrinkCandidate → Frontier → Frontier
  insert_candidate none frontier = frontier
  insert_candidate (some candidate) frontier =
      if contains identity_discrete frontier.identities (canonical_identity candidate)
      then frontier
      else record {
        identities = canonical_identity candidate ∷ frontier.identities;
        found = frontier.found ++ candidate ∷ [];
      }

abbrev pub source_schedule : PlannedCase → List ShrinkAction
source_schedule planned =
    map (λ action. record { source_action_id = action.id; kind = action.kind }) planned.actions

abbrev pub current_complexity : CandidateGenerator → Option ShrinkCandidate → ShrinkComplexity
current_complexity generator none = generator.source_complexity
current_complexity generator (some candidate) = candidate_complexity candidate

module _ {R : Type 0} (source : RandomSource R) where
  abbrev pub new_generator : PlannedCase → Result ShrinkError CandidateGenerator
  new_generator planned = do
    validate_seeded_source source planned
    ok (record { source = planned; source_complexity = complexity (action_kinds planned.actions) })

  abbrev pub schedule_of :
      CandidateGenerator → Option ShrinkCandidate → Result ShrinkError (List ShrinkAction)
  schedule_of generator none = ok (source_schedule generator.source)
  schedule_of generator (some candidate) = do
    validate_candidate source candidate
    reject_if (not (holds (planned_discrete candidate.source generator.source))) source_mismatch
    ok candidate.schedule

  -- `push_candidate` up to the identity: the candidate that a proposal gives, if any.
  unfoldable pub candidate_of :
      PlannedCase → ShrinkComplexity → List ShrinkAction → Option ShrinkCandidate
  candidate_of planned current proposal =
      elim (normalize_replay_action_kinds planned.spec (entry_kinds proposal)
        planned.scheduler_algorithm) [
          | none ↦ none
          | some retained ↦ elim (new_candidate source planned (pick_entries proposal retained)) [
            | err _ ↦ none
            | ok candidate ↦ keep_simpler current candidate
          ]
        ]

-- `push_until_full` returns `err` where the loop returns from the function.
module _ {R : Type 0} (source : RandomSource R)
    (to_vec : String × PlannedCase × List ShrinkAction → List ℕ)
    (blake3_hash : List ℕ → List ℕ) where
  module _ (planned : PlannedCase) (current : ShrinkComplexity) where
    unfoldable pub push_candidate : ℕ → List ShrinkAction → Frontier → Frontier
    push_candidate target_len proposal frontier =
        if length frontier.found == target_len
        then frontier
        else insert_candidate to_vec blake3_hash (candidate_of source planned current proposal)
            frontier

    abbrev pub push_all : ℕ → List (List ShrinkAction) → Frontier → Frontier
    push_all target_len [] frontier = frontier
    push_all target_len (proposal ∷ proposals) frontier =
        push_all target_len proposals (push_candidate target_len proposal frontier)

    unfoldable pub push_until_full :
        ℕ → List (List ShrinkAction) → Frontier → Result Frontier Frontier
    push_until_full target_len [] frontier = ok frontier
    push_until_full target_len (proposal ∷ proposals) frontier =
        let next = push_candidate target_len proposal frontier in
        elim (length next.found == target_len) [
          | true ↦ err next
          | false ↦ push_until_full target_len proposals next
        ]

    unfoldable pub push_entries : ℕ → List (List (List ShrinkAction)) → Frontier → Frontier
    push_entries target_len [] frontier = frontier
    push_entries target_len (proposals ∷ entries) frontier =
        let next = push_all target_len proposals frontier in
        elim (length next.found == target_len) [
          | true ↦ next
          | false ↦ push_entries target_len entries next
        ]

    -- What follows the first loops, which may have returned already.
    abbrev pub finish_batch : ℕ → List ShrinkAction → Result Frontier Frontier → CandidateBatch
    finish_batch limit schedule (err frontier) = record {
      candidates = take limit frontier.found;
      truncated = true;
    }
    finish_batch limit schedule (ok frontier) =
        let removed = push_all (limit + 1) (removal_proposals schedule 0 schedule) frontier in
        let final = push_entries (limit + 1) (entry_proposals schedule 0 schedule) removed in
        record { candidates = take limit final.found; truncated = ltb limit (length final.found) }

    unfoldable pub batch_of : ℕ → List ShrinkAction → CandidateBatch
    batch_of limit schedule =
        finish_batch limit schedule
          (push_until_full (limit + 1) (all_chunk_proposals schedule) empty_frontier)

  unfoldable pub candidate_batch :
      CandidateGenerator
      → Option ShrinkCandidate
      → CandidateLimit
      → Result ShrinkError CandidateBatch
  candidate_batch generator current limit = do
    schedule ← schedule_of source generator current
    ok (batch_of generator.source (current_complexity generator current) limit.value schedule)

  -- `CandidateGenerator::candidates`
  unfoldable pub candidates :
      CandidateGenerator
      → Option ShrinkCandidate
      → CandidateLimit
      → Result ShrinkError (List ShrinkCandidate)
  candidates generator current limit = do
    batch ← candidate_batch generator current limit
    ok batch.candidates
