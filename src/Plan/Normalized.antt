-- ===== src/Plan/Normalized.antt =====
-- crates/tiv-core/src/plan.rs: what `normalize_replay_action_kinds` retains of a schedule.
use tx_proof.Common.{
  ℕ, suc, ◌+◌, ◌≤◌, ◌<◌, ◌≡◌, refl, sym, ap, ◌∙◌, subst, arith, Bool, true, false, Option, none,
  some, List, [], ◌∷◌, ◌++◌, length, get_elem?, if◌then◌else◌, String, ok, Member, Member-contains,
  contains-Member, Bool-cases, Option-cases, Result-cases, inl, inr, length-append_one,
}
use mathlib.Core.List.{append_assoc}
use tx_proof.Plan.Types.{PlanActionKind, action_discrete}
use tx_proof.Plan.Spec.{PlanSpec, validate_spec}
use tx_proof.Plan.Model.{ModelState, is_complete, for_scheduler}
use tx_proof.Plan.Eligible.{eligible_actions}
use tx_proof.Plan.Apply.{apply_action}
use tx_proof.Plan.History.{Completes}
use tx_proof.Plan.Replay.{is_eligible, retain, normalize_from, normalize_replay_action_kinds}

-- Indices that rise from `from`, below `end`.
abbrev pub IsRising : ℕ → ℕ → List ℕ → Type 0
IsRising from end [] = from ≤ end
IsRising from end (index ∷ indices) =
    (from ≤ index) × (index < end) × IsRising (suc index) end indices

abbrev pub pick_at : Option PlanActionKind → List PlanActionKind → List PlanActionKind
pick_at none picked = picked
pick_at (some action) picked = action ∷ picked

-- The actions at the indices
abbrev pub picks : List PlanActionKind → List ℕ → List PlanActionKind
picks actions [] = []
picks actions (index ∷ indices) = pick_at (get_elem? actions index) (picks actions indices)

abbrev pub indices_from : ℕ → List PlanActionKind → List ℕ
indices_from index [] = []
indices_from index (action ∷ actions) = index ∷ indices_from (index + 1) actions

IsRising-le :
    (m n end : ℕ) (indices : List ℕ) → m ≤ n → IsRising n end indices → IsRising m end indices
IsRising-le m n end [] l h = omega arith
IsRising-le m n end (index ∷ indices) l h = (omega arith, h.1, h.2)

get_elem?-middle :
    (before after : List PlanActionKind) (action : PlanActionKind)
    → get_elem? (before ++ action ∷ after) (length before) ≡ some action
get_elem?-middle [] after action = refl
get_elem?-middle (first ∷ before) after action = get_elem?-middle before after action

none≢some : {r : List ℕ} → none ≡ some r → ⊥
none≢some e = cc

module _ (spec : PlanSpec) where
  normalize-skip :
      (index : ℕ) (state : ModelState) (action : PlanActionKind) (actions : List PlanActionKind)
      → is_eligible spec state action ≡ false
      → normalize_from spec index state (action ∷ actions)
        ≡ normalize_from spec (index + 1) state actions
  unfolding normalize_from
  normalize-skip index state action actions skipped = rw (skipped, normalize_from) refl

  normalize-take :
      (index : ℕ) (state next : ModelState) (action : PlanActionKind)
      (actions : List PlanActionKind)
      → is_eligible spec state action ≡ true
      → apply_action state action ≡ some next
      → normalize_from spec index state (action ∷ actions)
        ≡ retain index (normalize_from spec (index + 1) next actions)
  unfolding normalize_from
  normalize-take index state next action actions offered e = rw (offered, normalize_from, e) refl

  normalize-fail :
      (index : ℕ) (state : ModelState) (action : PlanActionKind) (actions : List PlanActionKind)
      → is_eligible spec state action ≡ true
      → apply_action state action ≡ none
      → normalize_from spec index state (action ∷ actions) ≡ none
  unfolding normalize_from
  normalize-fail index state action actions offered e = rw (offered, normalize_from, e) refl

  -- What is retained of the rest of a schedule, of which `before` is done.
  abbrev Retains : ModelState → List PlanActionKind → List PlanActionKind → List ℕ → Type 0
  Retains state before actions retained =
      IsRising (length before) (length before + length actions) retained
      × Completes spec state (picks (before ++ actions) retained)

  -- The action at the index just after what is done is taken first.
  taken :
      (state next : ModelState) (before actions : List PlanActionKind) (action : PlanActionKind)
      (index : ℕ) (indices : List ℕ)
      → index ≡ length before
      → Member action (eligible_actions state spec)
      → apply_action state action ≡ some next
      → IsRising (suc (length before)) (length before + length (action ∷ actions)) indices
      → Completes spec next (picks (before ++ action ∷ actions) indices)
      → Retains state before (action ∷ actions) (index ∷ indices)
  taken state next before actions action index indices i m e rising c =
      let at : get_elem? (before ++ action ∷ actions) index ≡ some action =
        subst (λ n. get_elem? (before ++ action ∷ actions) n ≡ some action) (sym i)
          (get_elem?-middle before actions action) in
      (
        (
          omega arith,
          omega arith,
          subst (λ n. IsRising (suc n) (length before + suc (length actions)) indices) (sym i)
              rising,
        ),
        subst (λ o. Completes spec state (pick_at o (picks (before ++ action ∷ actions) indices)))
            (sym at) (m, (next, e, c)),
      )

  Retains-shift :
      (state : ModelState) (before actions : List PlanActionKind) (action : PlanActionKind)
      (retained : List ℕ)
      → Retains state (before ++ action ∷ []) actions retained
      → IsRising (suc (length before)) (length before + length (action ∷ actions)) retained
        × Completes spec state (picks (before ++ action ∷ actions) retained)
  Retains-shift state before actions action retained (rising, c) =
      let from : length (before ++ action ∷ []) ≡ suc (length before) =
        length-append_one before action in
      let end : length (before ++ action ∷ []) + length actions
          ≡ length before + suc (length actions) =
        omega (arith, from) in
      (
        subst (λ n. IsRising n (length before + suc (length actions)) retained) from
            (subst (λ n. IsRising (length (before ++ action ∷ [])) n retained) end rising),
        subst (λ l. Completes spec state (picks l retained))
            (append_assoc before (action ∷ []) actions) c,
      )

  finished :
      (test : Bool) (retained : List ℕ)
      → (if test then some [] else none) ≡ some retained
      → (test ≡ true) × (retained ≡ [])
  finished true retained e = ground arith
  finished false retained e = cc

  retain-some :
      (index : ℕ) (rest : Option (List ℕ)) (retained : List ℕ)
      → retain index rest ≡ some retained
      → (indices : List ℕ) × (rest ≡ some indices) × (retained ≡ index ∷ indices)
  retain-some index none retained e = cc
  retain-some index (some indices) retained e = (indices, refl, cc)

  normalize_from-Retains :
      (state : ModelState) (before actions : List PlanActionKind) (index : ℕ) (retained : List ℕ)
      → index ≡ length before
      → normalize_from spec index state actions ≡ some retained
      → Retains state before actions retained
  normalize_from-Retains state before [] index retained i h =
      let (done, empty) = finished (is_complete state) retained (unfold normalize_from in h) in
      subst (Retains state before []) (sym empty) (omega arith, done)
  normalize_from-Retains state before (action ∷ actions) index retained i h =
      let i' : index + 1 ≡ length (before ++ action ∷ []) =
        omega (arith, length-append_one before action) in
      elim (Bool-cases (is_eligible spec state action)) [
        | inr skipped ↦
            let (rising, c) = Retains-shift state before actions action retained (
              normalize_from-Retains state (before ++ action ∷ []) actions (index + 1) retained i'
                (sym (normalize-skip index state action actions skipped) ∙ h)) in
            (IsRising-le (length before) (suc (length before)) _ retained (omega arith) rising, c)
        | inl offered ↦ elim (Option-cases (apply_action state action)) [
          | inl e ↦
              absurd (none≢some (sym (normalize-fail index state action actions offered e) ∙ h))
          | inr (next, e) ↦
              let (indices, ran, split) =
                retain-some index (normalize_from spec (index + 1) next actions) retained
                  (sym (normalize-take index state next action actions offered e) ∙ h) in
              let (rising, c) = Retains-shift next before actions action indices (
                normalize_from-Retains next (before ++ action ∷ []) actions (index + 1) indices i'
                  ran) in
              subst (Retains state before (action ∷ actions)) (sym split) (
                taken state next before actions action index indices i
                  (Member-contains action_discrete (eligible_actions state spec) action offered) e
                  rising c)
        ]
      ]

  -- The retained indices rise, lie in the schedule, and pick a complete history out of it.
  pub normalize-Retains :
      (actions : List PlanActionKind) (scheduler : String) (retained : List ℕ)
      → normalize_replay_action_kinds spec actions scheduler ≡ some retained
      → IsRising 0 (length actions) retained
        × Completes spec (for_scheduler scheduler) (picks actions retained)
        × (validate_spec spec ≡ ok tt)
  unfolding normalize_replay_action_kinds
  normalize-Retains actions scheduler retained h = elim (Result-cases (validate_spec spec)) [
    | inr (error, e) ↦ absurd (ground arith)
    | inl (tt, e) ↦
        let (rising, c) =
          normalize_from-Retains (for_scheduler scheduler) [] actions 0 retained refl
            (ground arith) in
        (subst (λ n. IsRising 0 n retained) (omega arith) rising, c, e)
  ]

  normalize_from-Completes :
      (state : ModelState) (actions : List PlanActionKind) (index : ℕ)
      → Completes spec state actions
      → normalize_from spec index state actions ≡ some (indices_from index actions)
  normalize_from-Completes state [] index done = unfold normalize_from in rw done refl
  normalize_from-Completes state (action ∷ actions) index (m, (next, e, c)) =
      normalize-take index state next action actions
        (contains-Member action_discrete (eligible_actions state spec) action m) e
      ∙ ap (retain index) (normalize_from-Completes next actions (index + 1) c)

  -- A schedule that is a complete history is retained as a whole.
  pub normalize-Completes :
      (actions : List PlanActionKind) (scheduler : String)
      → validate_spec spec ≡ ok tt
      → Completes spec (for_scheduler scheduler) actions
      → normalize_replay_action_kinds spec actions scheduler ≡ some (indices_from 0 actions)
  unfolding normalize_replay_action_kinds
  normalize-Completes actions scheduler valid c =
      rw (valid, normalize_replay_action_kinds)
        (normalize_from-Completes (for_scheduler scheduler) actions 0 c)

  -- What one normalization leaves, the next one leaves alone.
  pub normalize_idem :
      (actions : List PlanActionKind) (scheduler : String) (retained : List ℕ)
      → normalize_replay_action_kinds spec actions scheduler ≡ some retained
      → normalize_replay_action_kinds spec (picks actions retained) scheduler
        ≡ some (indices_from 0 (picks actions retained))
  normalize_idem actions scheduler retained h =
      let (rising, c, valid) = normalize-Retains actions scheduler retained h in
      normalize-Completes (picks actions retained) scheduler valid c
