-- ===== src/Plan/History.antt =====
-- crates/tiv-core/src/plan.rs: histories of a case, the abstract description of what the
-- search for a shortest one and the planner promise.
use tx_proof.Common.{
  ℕ, ◌≡◌, refl, sym, subst, true, Option, some, List, [], ◌∷◌, ◌++◌, Shortest, Member,
}
use tx_proof.Plan.Types.{PlanActionKind}
use tx_proof.Plan.Spec.{PlanSpec}
use tx_proof.Plan.Model.{ModelState, is_complete}
use tx_proof.Plan.Eligible.{eligible_actions}
use tx_proof.Plan.Apply.{apply_action}

-- A history: every action is offered where it is taken, applies, and the last state is complete.
abbrev pub Completes : PlanSpec → ModelState → List PlanActionKind → Type 0
Completes spec state [] = is_complete state ≡ true
Completes spec state (action ∷ actions) =
    Member action (eligible_actions state spec)
    × ((next : ModelState) × (apply_action state action ≡ some next) × Completes spec next actions)

-- `none` stands for no history at all, `some d` for a shortest history of `d` actions.
abbrev pub IsDistance : PlanSpec → ModelState → Option ℕ → Type 0
IsDistance spec state = Shortest (Completes spec state)

-- The actions lead from the first state to the last, each offered where it is taken.
abbrev pub Reaches : PlanSpec → ModelState → List PlanActionKind → ModelState → Type 0
Reaches spec state [] last = state ≡ last
Reaches spec state (action ∷ actions) last =
    Member action (eligible_actions state spec)
    × ((next : ModelState) × (apply_action state action ≡ some next)
        × Reaches spec next actions last)

pub Reaches-append :
    (spec : PlanSpec) (state last end : ModelState) (actions : List PlanActionKind)
    (action : PlanActionKind)
    → Reaches spec state actions last
    → Member action (eligible_actions last spec)
    → apply_action last action ≡ some end
    → Reaches spec state (actions ++ action ∷ []) end
Reaches-append spec state last end [] action r m e = (
  subst (λ s. Member action (eligible_actions s spec)) (sym r) m,
  (end, subst (λ s. apply_action s action ≡ some end) (sym r) e, refl),
)
Reaches-append spec state last end (first ∷ actions) action (n, (next, f, r)) m e =
    (n, (next, f, Reaches-append spec next last end actions action r m e))

pub Reaches-Completes :
    (spec : PlanSpec) (state last : ModelState) (actions : List PlanActionKind)
    → Reaches spec state actions last
    → is_complete last ≡ true
    → Completes spec state actions
Reaches-Completes spec state last [] r done = subst (λ s. is_complete s ≡ true) (sym r) done
Reaches-Completes spec state last (action ∷ actions) (m, (next, e, r)) done =
    (m, (next, e, Reaches-Completes spec next last actions r done))
