-- ===== src/Shrink/Candidate.antt =====
-- crates/tiv-core/src/shrink.rs: `ShrinkCandidate`, how it is made from a schedule, and `validate`.
use tx_proof.Common.{
  ℕ, ◌+◌, ◌-◌, Bool, true, false, not, ◌&&◌, holds, Option, none, some, List, [], ◌∷◌, map, Result,
  ok, ◌>>=◌, ◌>>◌, reject_if, map_err, ltb, ◌==◌, if◌then◌else◌, String, string_discrete,
  ℕ_discrete,
}
use tx_proof.Decision.{RandomSource}
use tx_proof.Plan.Types.{
  PlanActionKind, drive_checkout, retry_business_request, deliver_webhook, duplicate_webhook,
  kill_application, ProcessCutPoint, client_request_forwarded, client_response_observed,
  webhook_request_forwarded, webhook_response_observed, sql_probe, ProviderOutcome,
  commit_then_delay, terminal_outcome, outcome_discrete, action_discrete,
}
use tx_proof.Plan.Compiler.{PlannedAction, PlannedCase, fits_u32}
use tx_proof.Plan.Artifact.{planned_discrete, scheduler_is_known, validate_planned}
use tx_proof.Plan.Replay.{validate_replay_action_kinds}
use tx_proof.Shrink.Complexity.{complexity, is_simpler}
use tx_proof.Shrink.Lineage.{
  ShrinkError, unsupported_schema_version, unsupported_algorithm, invalid_source,
  source_is_not_seeded, invalid_schedule, invalid_reference_cut_point, does_not_simplify_source,
  invalid_materialization, action_limit, ShrinkAction, validate_lineage,
}

abbrev pub candidate_schema_version : ℕ
candidate_schema_version = 1

abbrev pub shrink_algorithm : String
shrink_algorithm = "dev.txproof/dependency-aware-hierarchical-ddmin/v1"

pub record ShrinkCandidate : Type 0 where
  pub schema_version : ℕ
  pub algorithm : String
  pub source : PlannedCase
  pub schedule : List ShrinkAction
  pub actions : List PlannedAction

unfoldable pub candidate_discrete : Discrete ShrinkCandidate
unfolding ℕ_discrete string_discrete planned_discrete action_discrete
candidate_discrete = hlevel (ℕ_discrete, string_discrete, planned_discrete, action_discrete)

abbrev pub entry_kinds : List ShrinkAction → List PlanActionKind
entry_kinds schedule = map (λ entry. entry.kind) schedule

abbrev pub action_kinds : List PlannedAction → List PlanActionKind
action_kinds actions = map (λ action. action.kind) actions

-- `PlannedAction::replay`
abbrev pub replay_action : ℕ → ℕ → ℕ → PlanActionKind → PlannedAction
replay_action logical_sequence decision_number eligible_count kind = record {
  id = logical_sequence;
  logical_sequence = logical_sequence;
  dependencies = if ltb 1 logical_sequence then (logical_sequence - 1) ∷ [] else [];
  decision_number = decision_number;
  eligible_count = eligible_count;
  kind = kind;
}

-- From an index on, over the zipped lists.
unfoldable pub materialize_from :
    ℕ → List PlanActionKind → List ℕ → Result ShrinkError (List PlannedAction)
materialize_from index [] counts = ok []
materialize_from index (kind ∷ kinds) [] = ok []
materialize_from index (kind ∷ kinds) (eligible_count ∷ counts) = do
  reject_if (not (fits_u32 (index + 1))) action_limit
  rest ← materialize_from (index + 1) kinds counts
  ok (replay_action (index + 1) index eligible_count kind ∷ rest)

abbrev pub materialize_actions :
    List PlanActionKind → List ℕ → Result ShrinkError (List PlannedAction)
materialize_actions kinds counts = materialize_from 0 kinds counts

abbrev pub delays : ProviderOutcome → Bool
delays outcome = holds (outcome_discrete outcome commit_then_delay)

-- Whether a kill at the cut point may come right after the action.
abbrev pub cut_point_is_supported : ProcessCutPoint → PlanActionKind → Bool
cut_point_is_supported client_request_forwarded (drive_checkout script) =
    delays (terminal_outcome script)
cut_point_is_supported client_request_forwarded (retry_business_request script) =
    delays (terminal_outcome script)
cut_point_is_supported client_response_observed (drive_checkout script) =
    not (delays (terminal_outcome script))
cut_point_is_supported client_response_observed (retry_business_request script) =
    not (delays (terminal_outcome script))
cut_point_is_supported webhook_request_forwarded deliver_webhook = true
cut_point_is_supported webhook_request_forwarded duplicate_webhook = true
cut_point_is_supported webhook_response_observed deliver_webhook = true
cut_point_is_supported webhook_response_observed duplicate_webhook = true
cut_point_is_supported sql_probe (drive_checkout _) = true
cut_point_is_supported _ _ = false

abbrev pub follows_cut_point : Option PlanActionKind → PlanActionKind → Bool
follows_cut_point none (kill_application cut_point) = false
follows_cut_point (some previous) (kill_application cut_point) =
    cut_point_is_supported cut_point previous
follows_cut_point previous _ = true

abbrev pub cut_points_from : Option PlanActionKind → List PlanActionKind → Bool
cut_points_from previous [] = true
cut_points_from previous (action ∷ actions) =
    follows_cut_point previous action && cut_points_from (some action) actions

unfoldable pub reference_cut_points_are_supported : List PlanActionKind → Bool
reference_cut_points_are_supported actions = cut_points_from none actions

module _ {R : Type 0} (source : RandomSource R) where
  unfoldable pub validate_seeded_source : PlannedCase → Result ShrinkError Unit
  validate_seeded_source planned = do
    map_err invalid_source (validate_planned source planned)
    reject_if (not (scheduler_is_known planned.scheduler_algorithm)) source_is_not_seeded

  abbrev pub check_source : Bool → PlannedCase → Result ShrinkError Unit
  check_source validate_source planned =
      if validate_source then validate_seeded_source planned else ok tt

  unfoldable pub materialize :
      ℕ → String → PlannedCase → List ShrinkAction → Bool → Result ShrinkError ShrinkCandidate
  materialize schema_version algorithm planned schedule validate_source = do
    reject_if (not (schema_version == candidate_schema_version)) unsupported_schema_version
    reject_if (not (holds (string_discrete algorithm shrink_algorithm))) unsupported_algorithm
    check_source validate_source planned
    validate_lineage planned schedule
    let kinds = entry_kinds schedule
    counts ←
        map_err invalid_schedule
          (validate_replay_action_kinds planned.spec kinds planned.scheduler_algorithm)
    reject_if (not (reference_cut_points_are_supported kinds)) invalid_reference_cut_point
    reject_if (not (is_simpler (complexity kinds) (complexity (action_kinds planned.actions))))
        does_not_simplify_source
    actions ← materialize_actions kinds counts
    ok (record {
      schema_version = schema_version;
      algorithm = algorithm;
      source = planned;
      schedule = schedule;
      actions = actions;
    })

  -- `ShrinkCandidate::new`
  abbrev pub new_candidate : PlannedCase → List ShrinkAction → Result ShrinkError ShrinkCandidate
  new_candidate planned schedule =
      materialize candidate_schema_version shrink_algorithm planned schedule false

  abbrev pub from_schedule :
      ℕ → String → PlannedCase → List ShrinkAction → Result ShrinkError ShrinkCandidate
  from_schedule schema_version algorithm planned schedule =
      materialize schema_version algorithm planned schedule true

  unfoldable pub validate_candidate : ShrinkCandidate → Result ShrinkError Unit
  validate_candidate candidate = do
    expected ←
        from_schedule candidate.schema_version candidate.algorithm candidate.source
          candidate.schedule
    reject_if (not (holds (candidate_discrete expected candidate))) invalid_materialization
