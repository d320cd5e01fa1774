-- ===== src/Examples/Shrinks.antt =====
-- Shrinking at concrete inputs.
use tx_proof.Common.{
  ℕ, ◌≡◌, refl, ◌≤◌, ◌↔◌, All, inl, ltb, if◌then◌else◌, arith, true, false, none, some, List, [],
  ◌∷◌, length, ok, String, ℕ_discrete, string_discrete,
}
use tx_proof.Plan.Types.{
  PlanActionKind, ProviderOutcome, normal, post_execute_500, single, payment_intent_v1,
  drive_checkout, retry_business_request, confirm_payment_intent, generate_provider_event,
  deliver_webhook, wait_for_quiescence, check_checkpoint, final, action_discrete, script_discrete,
  outcome_discrete, cut_point_discrete,
}
use tx_proof.Plan.Limits.{plan_schema_version, scheduler_algorithm, payment_intent_v1_api_version}
use tx_proof.Plan.Spec.{PlanSpec, validate_spec}
use tx_proof.Decision.{choose, new_engine}
use tx_proof.Plan.Model.{for_scheduler, state_discrete}
use tx_proof.Plan.Eligible.{eligible_actions}
use tx_proof.Plan.Apply.{apply_action, advance}
use tx_proof.Plan.Minimum.{minimum_actions_to_complete}
use tx_proof.Plan.Compiler.{
  plan_loop, plan_step, PlannedAction, PlannedCase, compile_with_scheduler,
}
use tx_proof.Shrink.Candidate.{
  ShrinkCandidate, candidate_schema_version, shrink_algorithm, replay_action, action_kinds,
  validate_seeded_source, materialize, materialize_from, reference_cut_points_are_supported,
}
use tx_proof.Plan.Replay.{
  normalize_replay_action_kinds, normalize_from, validate_replay_action_kinds, replay_counts,
}
use tx_proof.Shrink.Proposals.{all_chunk_proposals}
use tx_proof.Shrink.Simplify.{IsBetter, simplified_provider_actions, simplified-IsBetter}
use tx_proof.Shrink.Batches.{batch_from, whole_frontier, batch-whole_frontier}
use tx_proof.Shrink.Materialized.{IsCandidate, validate_candidate-IsCandidate}
use tx_proof.Shrink.Progress.{IsBatch}
use tx_proof.Shrink.Rank.{rank}
use tx_proof.Shrink.Rounds.{
  Accepts, candidate_batch-IsBatch, candidate_batch-ok_iff, round, done, Rounds-bounded,
}
use tx_proof.Shrink.Chunks.{
  FallsToOne, hierarchical_chunk_sizes, chunk_loop, hierarchical_chunk_sizes-FallsToOne,
}
use tx_proof.Plan.Artifact.{validate_planned, validate_planned_iff}
use tx_proof.Shrink.Complexity.{complexity}
use tx_proof.Shrink.Lineage.{
  ShrinkAction, validate_lineage, lineage_from, kind_is_simplification,
  provider_script_is_simplification,
}
use tx_proof.Shrink.Generator.{
  current_complexity, CandidateLimit, CandidateBatch, CandidateGenerator, new_generator,
  candidate_batch, batch_of, push_until_full, push_entries, push_candidate, candidate_of,
  identity_discrete,
}
use tx_proof.Examples.{counting}

abbrev pub faulty : PlanSpec
faulty = record {
  seed = 7;
  max_actions = record { value = 12 };
  provider_adapter = payment_intent_v1;
  provider_api_version = payment_intent_v1_api_version;
  provider_outcomes = ProviderOutcome.normal ∷ ProviderOutcome.post_execute_500 ∷ [];
  webhook_faults = record {
    duplicate_max = 1;
    delays_millis = 5 ∷ [];
    allow_reorder = false;
    allow_drop = false;
    allow_stale_event = false;
  };
  process_faults = record { cut_points = []; max_kills = 0 };
}

abbrev pub faulty_actions : List PlannedAction
faulty_actions =
    replay_action 1 0 2 (drive_checkout (single post_execute_500))
    ∷ replay_action 2 1 3 (retry_business_request (single post_execute_500))
    ∷ replay_action 3 2 2 (retry_business_request (single normal))
    ∷ replay_action 4 3 1 (confirm_payment_intent (single normal))
    ∷ replay_action 5 4 1 generate_provider_event
    ∷ replay_action 6 5 1 generate_provider_event
    ∷ replay_action 7 6 1 generate_provider_event
    ∷ replay_action 8 7 1 deliver_webhook
    ∷ replay_action 9 8 1 deliver_webhook
    ∷ replay_action 10 9 1 deliver_webhook
    ∷ replay_action 11 10 1 wait_for_quiescence
    ∷ replay_action 12 11 1 (check_checkpoint final)
    ∷ []

abbrev pub faulty_case : PlannedCase
faulty_case = record {
  schema_version = plan_schema_version;
  scheduler_algorithm = scheduler_algorithm;
  spec = faulty;
  decision_count = 12;
  actions = faulty_actions;
}

pub faulty-compiles : compile_with_scheduler counting faulty scheduler_algorithm ≡ ok faulty_case
unfolding compile_with_scheduler validate_spec minimum_actions_to_complete for_scheduler
    eligible_actions apply_action advance state_discrete plan_loop plan_step choose counting
    new_engine
faulty-compiles = refl

abbrev pub to_vec : String × PlannedCase × List ShrinkAction → List ℕ
to_vec (tag, planned, []) = []
to_vec (tag, planned, (entry ∷ schedule)) = entry.source_action_id ∷ to_vec (tag, planned, schedule)

abbrev pub generator : CandidateGenerator
generator = record {
  source = faulty_case;
  source_complexity = complexity (action_kinds faulty_actions);
}

abbrev pub blake3_hash : List ℕ → List ℕ
blake3_hash bytes = bytes

abbrev entry : ℕ → PlanActionKind → ShrinkAction
entry id kind = record { source_action_id = id; kind = kind }

-- What the generator finds first: without one retry, and what then is not eligible.
abbrev pub shorter : ShrinkCandidate
shorter = record {
  schema_version = candidate_schema_version;
  algorithm = shrink_algorithm;
  source = faulty_case;
  schedule =
      entry 1 (drive_checkout (single post_execute_500))
      ∷ entry 3 (retry_business_request (single normal))
      ∷ entry 4 (confirm_payment_intent (single normal))
      ∷ entry 5 generate_provider_event
      ∷ entry 6 generate_provider_event
      ∷ entry 8 deliver_webhook
      ∷ entry 9 deliver_webhook
      ∷ entry 11 wait_for_quiescence
      ∷ entry 12 (check_checkpoint final)
      ∷ [];
  actions =
      replay_action 1 0 2 (drive_checkout (single post_execute_500))
      ∷ replay_action 2 1 3 (retry_business_request (single normal))
      ∷ replay_action 3 2 2 (confirm_payment_intent (single normal))
      ∷ replay_action 4 3 1 generate_provider_event
      ∷ replay_action 5 4 1 generate_provider_event
      ∷ replay_action 6 5 2 deliver_webhook
      ∷ replay_action 7 6 3 deliver_webhook
      ∷ replay_action 8 7 2 wait_for_quiescence
      ∷ replay_action 9 8 1 (check_checkpoint final)
      ∷ [];
}

abbrev one_candidate : CandidateLimit
one_candidate = record { value = 1 }

abbrev shorter_batch : CandidateBatch
shorter_batch = record { candidates = shorter ∷ []; truncated = true }

faulty-batch :
    candidate_batch counting to_vec blake3_hash generator none one_candidate ≡ ok shorter_batch
unfolding candidate_batch batch_of push_until_full all_chunk_proposals hierarchical_chunk_sizes
    chunk_loop push_candidate candidate_of normalize_replay_action_kinds validate_spec
    normalize_from eligible_actions for_scheduler action_discrete apply_action advance materialize
    validate_lineage lineage_from kind_is_simplification provider_script_is_simplification
    script_discrete outcome_discrete cut_point_discrete ℕ_discrete string_discrete
    validate_replay_action_kinds replay_counts materialize_from reference_cut_points_are_supported
    complexity identity_discrete push_entries simplified_provider_actions
faulty-batch = refl

pub faulty_validates : validate_planned counting faulty_case ≡ ok tt
unfolding string_discrete
faulty_validates = (validate_planned_iff counting faulty_case).1 (refl, faulty-compiles)

pub faulty-generator : new_generator counting faulty_case ≡ ok generator
unfolding validate_seeded_source string_discrete complexity
faulty-generator = rw faulty_validates refl

pub faulty-Accepts : Accepts counting generator (some shorter)
faulty-Accepts =
    let promised =
      candidate_batch-IsBatch counting to_vec blake3_hash faulty_case generator none one_candidate
        shorter_batch faulty-generator faulty-batch in
    (promised.next.0.0, refl)

hierarchical_chunk_sizes-FallsToOne_example :
    (sizes : List ℕ) × (hierarchical_chunk_sizes 12 ≡ some sizes)
    × FallsToOne (if ltb 12 2 then 2 else 12) sizes
hierarchical_chunk_sizes-FallsToOne_example = hierarchical_chunk_sizes-FallsToOne 12 (omega arith)

sizes_of_twelve : hierarchical_chunk_sizes 12 ≡ some (6 ∷ 3 ∷ 2 ∷ 1 ∷ [])
unfolding hierarchical_chunk_sizes chunk_loop
sizes_of_twelve = refl

simplified-IsBetter_example :
    All
      (IsBetter (drive_checkout (single post_execute_500)))
      (simplified_provider_actions (drive_checkout (single post_execute_500)))
simplified-IsBetter_example = simplified-IsBetter (drive_checkout (single post_execute_500)) tt

batch-whole_frontier_example :
    batch_of counting to_vec blake3_hash faulty_case
      (current_complexity generator none)
      1
      shorter.schedule
    ≡ batch_from 1 (
        whole_frontier counting to_vec blake3_hash faulty_case
          (current_complexity generator none)
          shorter.schedule)
batch-whole_frontier_example =
    batch-whole_frontier counting to_vec blake3_hash faulty_case (current_complexity generator none)
      1 shorter.schedule

candidate_batch-ok_iff_example :
    ((batch : CandidateBatch) × (candidate_batch counting to_vec blake3_hash generator
          (some shorter)
          one_candidate
        ≡ ok batch))
    ↔ Accepts counting generator (some shorter)
candidate_batch-ok_iff_example =
    candidate_batch-ok_iff counting to_vec blake3_hash generator (some shorter) one_candidate

candidate_batch-IsBatch_example :
    IsBatch counting to_vec blake3_hash faulty_case
      (current_complexity generator none)
      1
      shorter_batch
candidate_batch-IsBatch_example =
    candidate_batch-IsBatch counting to_vec blake3_hash faulty_case generator none one_candidate
      shorter_batch faulty-generator faulty-batch

Rounds-bounded_example :
    (length (shorter ∷ []) ≤ rank (current_complexity generator none))
    × All (λ c. Accepts counting generator (some c)) (shorter ∷ [])
Rounds-bounded_example =
    Rounds-bounded counting to_vec blake3_hash faulty_case generator faulty-generator none
      (shorter ∷ []) (round one_candidate shorter_batch faulty-batch (inl refl) done)

validate_candidate-IsCandidate_example : IsCandidate counting shorter
validate_candidate-IsCandidate_example =
    validate_candidate-IsCandidate counting shorter faulty-Accepts.0
