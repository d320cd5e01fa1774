-- ===== src/Plan/Replayed.antt =====
-- crates/tiv-core/src/plan.rs: what the checks of a schedule promise, in terms of histories.
use tx_proof.Common.{
  ℕ, ◌≤◌, ◌≡◌, ◌↔◌, refl, arith, true, some, List, [], ◌∷◌, length, String, ok, Member,
  Member-contains, contains-Member, Option-cases, Result-cases, inl, inr,
}
use tx_proof.Decision.{RandomSource}
use tx_proof.Plan.Types.{PlanActionKind, action_discrete}
use tx_proof.Plan.Limits.{max_actions_per_case}
use tx_proof.Plan.Spec.{PlanSpec, validate_spec}
use tx_proof.Plan.Model.{ModelState, for_scheduler}
use tx_proof.Plan.Eligible.{eligible_actions}
use tx_proof.Plan.Apply.{apply_action}
use tx_proof.Plan.History.{Completes}
use tx_proof.Plan.Feasible.{IsValid}
use tx_proof.Plan.Compiler.{PlannedCase, compile_with_scheduler}
use tx_proof.Plan.Planning.{kinds}
use tx_proof.Plan.Compiled.{IsCompiled, compile-IsCompiled, length-kinds}
use tx_proof.Plan.Replay.{is_eligible, replay_counts, validate_replay_action_kinds}

module _ (spec : PlanSpec) where
  eligible-Member :
      (state : ModelState) (action : PlanActionKind)
      → is_eligible spec state action ≡ true
      → Member action (eligible_actions state spec)
  eligible-Member state action =
      Member-contains action_discrete (eligible_actions state spec) action

  Member-eligible :
      (state : ModelState) (action : PlanActionKind)
      → Member action (eligible_actions state spec)
      → is_eligible spec state action ≡ true
  Member-eligible state action =
      contains-Member action_discrete (eligible_actions state spec) action

  replay_counts-step :
      (state : ModelState) (action : PlanActionKind) (actions : List PlanActionKind)
      (counts : List ℕ)
      → replay_counts spec state (action ∷ actions) ≡ ok counts
      → (is_eligible spec state action ≡ true)
        × (next : ModelState) × (apply_action state action ≡ some next)
        × (rest : List ℕ) × (replay_counts spec next actions ≡ ok rest)
  unfolding replay_counts
  replay_counts-step state action actions counts h =
      elim (Option-cases (apply_action state action)) [
        | inl e ↦ absurd (ground arith)
        | inr (next, e) ↦ elim (Result-cases (replay_counts spec next actions)) [
          | inl (rest, ran) ↦ (ground arith, next, e, rest, ran)
          | inr (error, ran) ↦ absurd (ground arith)
        ]
      ]

  replay_counts-Completes :
      (state : ModelState) (actions : List PlanActionKind) (counts : List ℕ)
      → replay_counts spec state actions ≡ ok counts
      → Completes spec state actions
  unfolding replay_counts
  replay_counts-Completes state [] counts h = ground arith
  replay_counts-Completes state (action ∷ actions) counts h =
      let (offered, next, e, rest, ran) = replay_counts-step state action actions counts h in
      (
        eligible-Member state action offered,
        (next, e, replay_counts-Completes next actions rest ran),
      )

  Completes-replay_counts :
      (state : ModelState) (actions : List PlanActionKind)
      → Completes spec state actions
      → (counts : List ℕ) × (replay_counts spec state actions ≡ ok counts)
  unfolding replay_counts
  Completes-replay_counts state [] done = ([], rw done refl)
  Completes-replay_counts state (action ∷ actions) (m, (next, e, c)) =
      let (counts, ran) = Completes-replay_counts next actions c in
      (
        length (eligible_actions state spec) ∷ counts,
        rw (Member-eligible state action m, e, ran) refl,
      )

  -- A schedule is accepted exactly if the specification is valid, the schedule is within the bound
  -- of v1, and it is a complete history.
  pub validate_replay_iff :
      (actions : List PlanActionKind) (scheduler : String)
      → ((counts : List ℕ) × (validate_replay_action_kinds spec actions scheduler ≡ ok counts)) ↔ (
          (validate_spec spec ≡ ok tt)
          × (length actions ≤ max_actions_per_case)
          × Completes spec (for_scheduler scheduler) actions)
  unfolding validate_replay_action_kinds
  validate_replay_iff actions scheduler = (
    λ (counts, h). elim (Result-cases (validate_spec spec)) [
      | inr (error, e) ↦ absurd (ground arith)
      | inl (u, e) ↦ (
        e,
        ground arith,
        replay_counts-Completes (for_scheduler scheduler) actions counts (ground arith),
      )
    ],
    λ (valid, short, c).
        let (counts, ran) = Completes-replay_counts (for_scheduler scheduler) actions c in
        (counts, rw (valid, ran) (ground arith)),
  )

-- Every compiled case can be replayed from its actions alone.
pub compile-validate_replay :
    {R : Type 0} (source : RandomSource R) (spec : PlanSpec) (scheduler : String)
    (planned : PlannedCase)
    → IsValid spec
    → compile_with_scheduler source spec scheduler ≡ ok planned
    → (counts : List ℕ) × (validate_replay_action_kinds spec (kinds planned.actions) scheduler
        ≡ ok counts)
compile-validate_replay source spec scheduler planned valid e =
    let compiled : IsCompiled spec scheduler (ok planned) =
      rw e at (compile-IsCompiled source spec valid scheduler) in
    (validate_replay_iff spec (kinds planned.actions) scheduler).1 (
      valid.accepted,
      omega (arith, length-kinds planned.actions, compiled.3, valid.budget),
      compiled.2,
    )
