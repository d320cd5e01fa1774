-- ===== src/Examples/Cases.antt =====
-- The compiler of cases, its search, its replays and its choices at concrete inputs.
use tx_proof.Common.{
  ℕ, ◌≤◌, ◌<◌, ◌≡◌, ◌↔◌, refl, true, arith, Option, none, some, List, [], ◌∷◌, length, All, Member,
  ok,
}
use tx_proof.Decision.{DecisionEngine, choose}
use tx_proof.Decision.Choice.{IsChoice, choose-IsChoice, choose-set}
use tx_proof.Plan.Types.{
  PlanActionKind, drive_checkout, deliver_webhook, wait_for_quiescence, single, ProviderOutcome,
}
use tx_proof.Plan.ActionOrder.{action_order}
use tx_proof.Plan.Limits.{scheduler_algorithm, max_actions_per_case}
use tx_proof.Plan.Spec.{validate_spec}
use tx_proof.Plan.Model.{ModelState, for_scheduler, state_discrete}
use tx_proof.Plan.Eligible.{eligible_actions}
use tx_proof.Plan.Apply.{apply_action, advance}
use tx_proof.Plan.Minimum.{minimum_actions_to_complete, empty_cache}
use tx_proof.Plan.Compiler.{PlannedCase, compile_with_scheduler}
use tx_proof.Plan.Artifact.{validate_planned, scheduler_is_known, validate_planned_iff}
use tx_proof.Plan.Replay.{validate_replay_action_kinds, normalize_replay_action_kinds}
use tx_proof.Plan.Guards.{Permits, eligible_actions-Permits}
use tx_proof.Plan.Measure.{measure, apply_action-falls}
use tx_proof.Plan.History.{Completes, IsDistance}
use tx_proof.Plan.Caches.{Extends}
use tx_proof.Plan.Distance.{minimum_actions-IsDistance}
use tx_proof.Plan.Feasible.{IsValid-InBounds, standard_history, standard_history-Completes}
use tx_proof.Plan.Planning.{kinds}
use tx_proof.Plan.Compiled.{IsCompiled, compile-IsCompiled, compile-ok_iff}
use tx_proof.Plan.Replayed.{validate_replay_iff, compile-validate_replay}
use tx_proof.Plan.Normalized.{IsRising, picks, normalize-Retains, normalize-Completes}
use tx_proof.Examples.{counting, small, small_accepted, small-IsValid}

abbrev small_start : ModelState
small_start = for_scheduler scheduler_algorithm

-- The shortest history of the small specification has six actions.
minimum_of_small : (minimum_actions_to_complete 2000 small small_start empty_cache).0 ≡ some 6
unfolding minimum_actions_to_complete for_scheduler eligible_actions apply_action advance
    state_discrete
minimum_of_small = refl

compile-IsCompiled_example :
    IsCompiled small scheduler_algorithm (compile_with_scheduler counting small scheduler_algorithm)
compile-IsCompiled_example = compile-IsCompiled counting small small-IsValid scheduler_algorithm

small_completes : Completes small small_start (standard_history small)
small_completes = standard_history-Completes small scheduler_algorithm small_accepted

small_compiled :
    (planned : PlannedCase) × (compile_with_scheduler counting small scheduler_algorithm
      ≡ ok planned)
small_compiled =
    (compile-ok_iff counting small small-IsValid scheduler_algorithm).1
      (standard_history small, small_completes, omega arith)

none≢some : {n : Option ℕ} → none ≡ some n → ⊥
none≢some e = cc

small_start_low : measure small small_start < 2000
unfolding for_scheduler
small_start_low = omega arith

minimum_actions-IsDistance_example :
    IsDistance small small_start (minimum_actions_to_complete 2000 small small_start empty_cache).0
    × Extends small empty_cache (minimum_actions_to_complete 2000 small small_start empty_cache).1
minimum_actions-IsDistance_example =
    minimum_actions-IsDistance small (IsValid-InBounds small small_accepted) 2000 small_start
      empty_cache small_start_low (λ s r m e. absurd (none≢some e))

eligible_actions-Permits_example :
    All (Permits small small_start) (eligible_actions small_start small)
eligible_actions-Permits_example = eligible_actions-Permits small small_start

small-Permits : Permits small small_start (drive_checkout (single ProviderOutcome.normal))
unfolding for_scheduler
small-Permits = (refl, tt)

apply_action-falls_example : measure small small_completes.1.0 < measure small small_start
apply_action-falls_example =
    apply_action-falls small (IsValid-InBounds small small_accepted) small_start small_completes.1.0
      (drive_checkout (single ProviderOutcome.normal)) small-Permits small_completes.1.1

validate_planned_iff_example : (validate_planned counting small_compiled.0 ≡ ok tt) ↔ (
    (scheduler_is_known small_compiled.0.scheduler_algorithm ≡ true)
    × (compile_with_scheduler counting small_compiled.0.spec small_compiled.0.scheduler_algorithm
        ≡ ok small_compiled.0))
validate_planned_iff_example = validate_planned_iff counting small_compiled.0

validate_replay_iff_example :
    ((counts : List ℕ) × (validate_replay_action_kinds small
          (standard_history small)
          scheduler_algorithm
        ≡ ok counts))
    ↔ ((validate_spec small ≡ ok tt)
        × (length (standard_history small) ≤ max_actions_per_case)
        × Completes small (for_scheduler scheduler_algorithm) (standard_history small))
validate_replay_iff_example = validate_replay_iff small (standard_history small) scheduler_algorithm

compile-validate_replay_example :
    (counts : List ℕ) × (validate_replay_action_kinds small
        (kinds small_compiled.0.actions)
        scheduler_algorithm
      ≡ ok counts)
compile-validate_replay_example =
    compile-validate_replay counting small scheduler_algorithm small_compiled.0 small-IsValid
      small_compiled.1

normalize_standard :
    normalize_replay_action_kinds small (standard_history small) scheduler_algorithm
    ≡ some (0 ∷ 1 ∷ 2 ∷ 3 ∷ 4 ∷ 5 ∷ [])
normalize_standard =
    normalize-Completes small (standard_history small) scheduler_algorithm small_accepted
      small_completes

normalize-Completes_example :
    normalize_replay_action_kinds small (standard_history small) scheduler_algorithm
    ≡ some (0 ∷ 1 ∷ 2 ∷ 3 ∷ 4 ∷ 5 ∷ [])
normalize-Completes_example =
    normalize-Completes small (standard_history small) scheduler_algorithm small_accepted
      small_completes

normalize-Retains_example :
    IsRising 0 6 (0 ∷ 1 ∷ 2 ∷ 3 ∷ 4 ∷ 5 ∷ [])
    × Completes small small_start (picks (standard_history small) (0 ∷ 1 ∷ 2 ∷ 3 ∷ 4 ∷ 5 ∷ []))
    × (validate_spec small ≡ ok tt)
normalize-Retains_example =
    normalize-Retains small (standard_history small) scheduler_algorithm
      (0 ∷ 1 ∷ 2 ∷ 3 ∷ 4 ∷ 5 ∷ []) normalize_standard

abbrev engine : DecisionEngine ℕ
engine = record { rng = 3; decision_number = 1 }

choose-IsChoice_example :
    IsChoice counting action_order engine
      (wait_for_quiescence ∷ deliver_webhook ∷ [])
      (choose counting action_order engine (wait_for_quiescence ∷ deliver_webhook ∷ []))
choose-IsChoice_example =
    choose-IsChoice counting action_order engine (wait_for_quiescence ∷ deliver_webhook ∷ [])

same_elements :
    (action : PlanActionKind)
    → Member action (wait_for_quiescence ∷ deliver_webhook ∷ [])
      ↔ Member action (deliver_webhook ∷ wait_for_quiescence ∷ deliver_webhook ∷ [])
same_elements action = (λ m. ground arith, λ m. ground arith)

choose-set_example :
    choose counting action_order engine (wait_for_quiescence ∷ deliver_webhook ∷ [])
    ≡ choose counting action_order engine
        (deliver_webhook ∷ wait_for_quiescence ∷ deliver_webhook ∷ [])
choose-set_example =
    choose-set counting action_order engine (wait_for_quiescence ∷ deliver_webhook ∷ [])
      (deliver_webhook ∷ wait_for_quiescence ∷ deliver_webhook ∷ []) same_elements
