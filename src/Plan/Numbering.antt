-- ===== src/Plan/Numbering.antt =====
-- crates/tiv-core/src/plan.rs: the numbers of planned actions: consecutive identifiers from one,
-- consecutive decisions from zero, and each action depending on the one before it alone.
use tx_proof.Common.{ℕ, suc, ◌+◌, ◌≡◌, refl, ◌∙◌, arith, List, [], ◌∷◌, ◌++◌, length}
use tx_proof.Plan.Compiler.{PlannedAction, previous_id}

abbrev pub IsNumberedFrom : ℕ → List ℕ → List PlannedAction → Type 0
IsNumberedFrom n previous [] = Unit
IsNumberedFrom n previous (action ∷ actions) =
    (action.id ≡ suc n)
    × (action.logical_sequence ≡ suc n)
    × (action.dependencies ≡ previous)
    × (action.decision_number ≡ n)
    × IsNumberedFrom (suc n) (action.id ∷ []) actions

abbrev pub IsNumbered : List PlannedAction → Type 0
IsNumbered = IsNumberedFrom 0 []

abbrev last_id : List ℕ → List PlannedAction → List ℕ
last_id previous [] = previous
last_id previous (action ∷ actions) = last_id (action.id ∷ []) actions

last_id-previous_id :
    (first : PlannedAction) (rest : List PlannedAction) (previous : List ℕ)
    → previous_id (first ∷ rest) ≡ last_id previous (first ∷ rest)
last_id-previous_id first [] previous = refl
last_id-previous_id first (next ∷ rest) previous = last_id-previous_id next rest (first.id ∷ [])

IsNumberedFrom-append :
    (n : ℕ) (previous : List ℕ) (actions : List PlannedAction) (action : PlannedAction)
    → IsNumberedFrom n previous actions
    → action.id ≡ suc (n + length actions)
    → action.logical_sequence ≡ suc (n + length actions)
    → action.dependencies ≡ last_id previous actions
    → action.decision_number ≡ n + length actions
    → IsNumberedFrom n previous (actions ++ action ∷ [])
IsNumberedFrom-append n previous [] action h i l d k =
    (omega arith, omega arith, d, omega arith, tt)
IsNumberedFrom-append n previous (first ∷ actions) action (a, b, c, e, h) i l d k = (
  a,
  b,
  c,
  e,
  IsNumberedFrom-append (suc n) (first.id ∷ []) actions action h (omega arith) (omega arith) d
      (omega arith),
)

pub IsNumbered-append :
    (actions : List PlannedAction) (action : PlannedAction)
    → IsNumbered actions
    → action.id ≡ length actions + 1
    → action.logical_sequence ≡ length actions + 1
    → action.dependencies ≡ previous_id actions
    → action.decision_number ≡ length actions
    → IsNumbered (actions ++ action ∷ [])
IsNumbered-append [] action h i l d k = (omega arith, omega arith, d, omega arith, tt)
IsNumbered-append (first ∷ actions) action h i l d k =
    IsNumberedFrom-append 0 [] (first ∷ actions) action h (omega arith) (omega arith)
      (d ∙ last_id-previous_id first actions []) (omega arith)
