-- ===== src/Shrink/Lineages.antt =====
-- crates/tiv-core/src/shrink.rs: what the lineage and the numbering of a candidate are.
use tx_proof.Common.{
  ℕ, ◌+◌, ◌≡◌, inl, inr, refl, subst, arith, true, false, Option, some, List, [], ◌∷◌, length, ok,
  ◌==◌, Bool-cases, Result-cases, Option-cases, Member, find?,
}
use tx_proof.Plan.Types.{PlanActionKind}
use tx_proof.Plan.Spec.{PlanSpec}
use tx_proof.Plan.Model.{ModelState}
use tx_proof.Plan.Apply.{apply_action}
use tx_proof.Plan.Replay.{replay_counts}
use tx_proof.Plan.Compiler.{PlannedAction}
use tx_proof.Shrink.Lineage.{ShrinkAction, is_not_after, kind_is_simplification, lineage_from}
use tx_proof.Shrink.Candidate.{replay_action, materialize_from}

-- Every entry stems from an action of the source which it simplifies, in the order of the source.
abbrev pub Descends : List PlannedAction → Option ℕ → List ShrinkAction → Type 0
Descends actions previous [] = Unit
Descends actions previous (entry ∷ schedule) =
    (is_not_after previous entry.source_action_id ≡ false)
    × ((original : PlannedAction) × Member original actions
        × (original.id ≡ entry.source_action_id)
        × (kind_is_simplification original.kind entry.kind ≡ true))
    × Descends actions (some entry.source_action_id) schedule

find?-Member :
    (actions : List PlannedAction) (id : ℕ) (found : PlannedAction)
    → find? (λ action. action.id == id) actions ≡ some found
    → Member found actions × (found.id ≡ id)
find?-Member [] id found h = cc
find?-Member (action ∷ actions) id found h = elim (Bool-cases (action.id == id)) [
  | inl e ↦ ground arith
  | inr e ↦ let (m, at) = find?-Member actions id found (ground arith) in (inr m, at)
]

pub lineage-Descends :
    (actions : List PlannedAction) (previous : Option ℕ) (schedule : List ShrinkAction)
    → lineage_from actions previous schedule ≡ ok tt
    → Descends actions previous schedule
unfolding lineage_from
lineage-Descends actions previous [] h = tt
lineage-Descends actions previous (entry ∷ schedule) h =
    elim (Option-cases (find? (λ action. action.id == entry.source_action_id) actions)) [
      | inl e ↦ absurd (ground arith)
      | inr (original, e) ↦
          let (m, at) = find?-Member actions entry.source_action_id original e in
          (
            ground arith,
            ((original, m, at, ground arith)),
            lineage-Descends actions (some entry.source_action_id) schedule (ground arith),
          )
    ]

-- Actions numbered from `index` on, one for each kind.
abbrev pub IsNumberedFrom : ℕ → List PlanActionKind → List PlannedAction → Type 0
IsNumberedFrom index [] [] = Unit
IsNumberedFrom index (kind ∷ kinds) (action ∷ actions) =
    (action.kind ≡ kind)
    × (action.id ≡ index + 1)
    × (action.decision_number ≡ index)
    × IsNumberedFrom (index + 1) kinds actions
IsNumberedFrom index _ _ = ⊥

pub materialize_from-IsNumberedFrom :
    (index : ℕ) (kinds : List PlanActionKind) (counts : List ℕ) (actions : List PlannedAction)
    → length counts ≡ length kinds
    → materialize_from index kinds counts ≡ ok actions
    → IsNumberedFrom index kinds actions
unfolding materialize_from
materialize_from-IsNumberedFrom index [] counts [] l h = tt
materialize_from-IsNumberedFrom index [] counts (action ∷ actions) l h = cc
materialize_from-IsNumberedFrom index (kind ∷ kinds) [] actions l h = absurd (ground arith)
materialize_from-IsNumberedFrom index (kind ∷ kinds) (count ∷ counts) actions l h =
    elim (Result-cases (materialize_from (index + 1) kinds counts)) [
      | inl (rest, e) ↦
          let numbered =
            materialize_from-IsNumberedFrom (index + 1) kinds counts rest (ground arith) e in
          let shape : replay_action (index + 1) index count kind ∷ rest ≡ actions = ground arith in
          subst (IsNumberedFrom index (kind ∷ kinds)) shape (refl, refl, refl, numbered)
      | inr (error, e) ↦ absurd (ground arith)
    ]

pub length-replay_counts :
    (spec : PlanSpec) (state : ModelState) (kinds : List PlanActionKind) (counts : List ℕ)
    → replay_counts spec state kinds ≡ ok counts
    → length counts ≡ length kinds
unfolding replay_counts
length-replay_counts spec state [] counts h = ground arith
length-replay_counts spec state (kind ∷ kinds) counts h =
    elim (Option-cases (apply_action state kind)) [
      | inl e ↦ absurd (ground arith)
      | inr (next, e) ↦ elim (Result-cases (replay_counts spec next kinds)) [
        | inl (rest, ran) ↦ let same = length-replay_counts spec next kinds rest ran in ground arith
        | inr (error, ran) ↦ absurd (ground arith)
      ]
    ]
