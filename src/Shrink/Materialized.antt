-- ===== src/Shrink/Materialized.antt =====
-- crates/tiv-core/src/shrink.rs: what `materialize` and `validate` accept.
use tx_proof.Common.{
  ℕ, ◌≤◌, ◌≡◌, inl, inr, refl, ap₂, ◌∙◌, arith, Bool, true, false, none, List, length, ok, String,
  Result-cases,
}
use tx_proof.Decision.{RandomSource}
use tx_proof.Plan.Limits.{max_actions_per_case}
use tx_proof.Plan.Model.{for_scheduler}
use tx_proof.Plan.History.{Completes}
use tx_proof.Plan.Replay.{validate_replay_action_kinds}
use tx_proof.Plan.Replayed.{validate_replay_iff}
use tx_proof.Plan.Compiler.{PlannedCase, compile_with_scheduler}
use tx_proof.Plan.Artifact.{scheduler_is_known, validate_planned, validate_planned_iff}
use tx_proof.Shrink.Complexity.{complexity, is_simpler}
use tx_proof.Shrink.Lineage.{ShrinkAction, validate_lineage}
use tx_proof.Shrink.Candidate.{
  ShrinkCandidate, candidate_schema_version, shrink_algorithm, entry_kinds, action_kinds,
  materialize_actions, reference_cut_points_are_supported, validate_seeded_source, materialize,
  from_schedule, new_candidate, validate_candidate,
}
use tx_proof.Shrink.Lineages.{
  Descends, lineage-Descends, IsNumberedFrom, materialize_from-IsNumberedFrom, length-replay_counts,
}

-- What `materialize` found out about a schedule.
record IsMaterialized (planned : PlannedCase) (schedule : List ShrinkAction) (c : ShrinkCandidate)
    : Type 0 where
  schema_version : c.schema_version ≡ candidate_schema_version
  algorithm : c.algorithm ≡ shrink_algorithm
  of_source : c.source ≡ planned
  of_schedule : c.schedule ≡ schedule
  lineage : validate_lineage planned schedule ≡ ok tt
  counts : List ℕ
  replays :
      validate_replay_action_kinds planned.spec (entry_kinds schedule) planned.scheduler_algorithm
      ≡ ok counts
  cuts : reference_cut_points_are_supported (entry_kinds schedule) ≡ true
  simpler :
      is_simpler (complexity (entry_kinds schedule)) (complexity (action_kinds planned.actions))
      ≡ true
  numbered : materialize_actions (entry_kinds schedule) counts ≡ ok c.actions

-- What every accepted candidate is.
pub record IsCandidate {R : Type 0} (source : RandomSource R) (c : ShrinkCandidate) : Type 0 where
  pub known : scheduler_is_known c.source.scheduler_algorithm ≡ true
  pub compiled :
      compile_with_scheduler source c.source.spec c.source.scheduler_algorithm ≡ ok c.source
  pub lineage : Descends c.source.actions none c.schedule
  pub short : length (entry_kinds c.schedule) ≤ max_actions_per_case
  pub completes :
      Completes c.source.spec (for_scheduler c.source.scheduler_algorithm) (entry_kinds c.schedule)
  pub cuts : reference_cut_points_are_supported (entry_kinds c.schedule) ≡ true
  pub simpler :
      is_simpler (complexity (entry_kinds c.schedule)) (complexity (action_kinds c.source.actions))
      ≡ true
  pub numbered : IsNumberedFrom 0 (entry_kinds c.schedule) c.actions

module _ {R : Type 0} (source : RandomSource R) where
  materialize-facts :
      (version : ℕ) (algorithm : String) (planned : PlannedCase) (schedule : List ShrinkAction)
      (test : Bool) (c : ShrinkCandidate)
      → materialize source version algorithm planned schedule test ≡ ok c
      → IsMaterialized planned schedule c
  unfolding materialize
  materialize-facts version algorithm planned schedule test c h =
      elim (Result-cases (
        validate_replay_action_kinds planned.spec (entry_kinds schedule)
          planned.scheduler_algorithm)) [
            | inr (error, e) ↦ absurd (ground arith)
            | inl (counts, e) ↦ record {
              schema_version = ground arith;
              algorithm = ground arith;
              of_source = ground arith;
              of_schedule = ground arith;
              lineage = ground arith;
              counts = counts;
              replays = e;
              cuts = ground arith;
              simpler = ground arith;
              numbered = ground arith;
            }
          ]

  materialize-tested :
      (version : ℕ) (algorithm : String) (planned : PlannedCase) (schedule : List ShrinkAction)
      → validate_seeded_source source planned ≡ ok tt
      → materialize source version algorithm planned schedule true
        ≡ materialize source version algorithm planned schedule false
  unfolding materialize
  materialize-tested version algorithm planned schedule seeded = rw seeded refl

  -- A schedule that was accepted without the test of its source is accepted with it.
  materialize-again :
      (planned : PlannedCase) (schedule : List ShrinkAction) (c : ShrinkCandidate)
      → validate_seeded_source source planned ≡ ok tt
      → new_candidate source planned schedule ≡ ok c
      → from_schedule source c.schema_version c.algorithm c.source c.schedule ≡ ok c
  materialize-again planned schedule c seeded h =
      let version = candidate_schema_version in
      let facts = materialize-facts version shrink_algorithm planned schedule false c h in
      ap₂ (λ v a. from_schedule source v a c.source c.schedule) facts.schema_version facts.algorithm
      ∙ ap₂ (from_schedule source version shrink_algorithm) facts.of_source facts.of_schedule
      ∙ materialize-tested version shrink_algorithm planned schedule seeded
      ∙ h

  pub new_candidate-validates :
      (planned : PlannedCase) (schedule : List ShrinkAction) (c : ShrinkCandidate)
      → validate_seeded_source source planned ≡ ok tt
      → new_candidate source planned schedule ≡ ok c
      → (validate_candidate source c ≡ ok tt) × (c.source ≡ planned)
  unfolding validate_candidate
  new_candidate-validates planned schedule c seeded h = (
    rw (materialize-again planned schedule c seeded h) (ground arith),
    (materialize-facts candidate_schema_version shrink_algorithm planned schedule false c
        h).of_source,
  )

  from_schedule-seeded :
      (version : ℕ) (algorithm : String) (planned : PlannedCase) (schedule : List ShrinkAction)
      (c : ShrinkCandidate)
      → from_schedule source version algorithm planned schedule ≡ ok c
      → validate_planned source planned ≡ ok tt
  unfolding materialize validate_seeded_source
  from_schedule-seeded version algorithm planned schedule c h =
      elim (Result-cases (validate_planned source planned)) [
        | inl (u, e) ↦ e
        | inr (error, e) ↦ absurd (ground arith)
      ]

  validate-again :
      (c : ShrinkCandidate)
      → validate_candidate source c ≡ ok tt
      → from_schedule source c.schema_version c.algorithm c.source c.schedule ≡ ok c
  unfolding validate_candidate
  validate-again c h =
      elim (Result-cases (from_schedule source c.schema_version c.algorithm c.source c.schedule)) [
        | inl (expected, e) ↦ ground arith
        | inr (error, e) ↦ absurd (ground arith)
      ]

  -- A candidate that validates stems from a case that the compiler makes, entry by entry, and its
  -- kinds are a complete history that counts as simpler than the case.
  pub validate_candidate-IsCandidate :
      (c : ShrinkCandidate) → validate_candidate source c ≡ ok tt → IsCandidate source c
  unfolding validate_lineage validate_replay_action_kinds
  validate_candidate-IsCandidate c h =
      let again = validate-again c h in
      let facts = materialize-facts c.schema_version c.algorithm c.source c.schedule true c again in
      let (known, compiled) =
        (validate_planned_iff source c.source).0
          (from_schedule-seeded c.schema_version c.algorithm c.source c.schedule c again) in
      let kinds = entry_kinds c.schedule in
      let (valid, short, completes) =
        (validate_replay_iff c.source.spec kinds c.source.scheduler_algorithm).0
          (facts.counts, facts.replays) in
      record {
        known = known;
        compiled = compiled;
        lineage = lineage-Descends c.source.actions none c.schedule facts.lineage;
        short = short;
        completes = completes;
        cuts = facts.cuts;
        simpler = facts.simpler;
        numbered =
            materialize_from-IsNumberedFrom 0 kinds facts.counts c.actions
              (length-replay_counts c.source.spec (for_scheduler c.source.scheduler_algorithm) kinds
                facts.counts (ground arith))
              facts.numbered;
      }
