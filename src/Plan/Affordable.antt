-- ===== src/Plan/Affordable.antt =====
-- crates/tiv-core/src/plan.rs: the filter of the planner's loop keeps exactly the actions after
-- which the case can still be completed within the budget.
use tx_proof.Common.{
  ℕ, ◌≤◌, ◌<◌, ◌≡◌, refl, sym, subst, arith, inl, inr, Bool, true, false, Option, none, some, List,
  [], ◌∷◌, length, Member, All,
}
use mathlib.Core.Bool.{false≢true}
use tx_proof.Plan.Types.{PlanActionKind}
use tx_proof.Plan.Spec.{PlanSpec}
use tx_proof.Plan.Model.{ModelState}
use tx_proof.Plan.Apply.{apply_action}
use tx_proof.Plan.Minimum.{Cache, minimum_actions_to_complete, search_fuel}
use tx_proof.Plan.Measure.{InBounds, measure}
use tx_proof.Plan.History.{Completes, IsDistance}
use tx_proof.Plan.Distance.{minimum_actions-IsDistance}
use tx_proof.Plan.Compiler.{is_within, keep_if, afford, affordable}

abbrev pub IsSound : PlanSpec → Cache → Type 0
IsSound spec cache =
    (state : ModelState) (r : Option ℕ) → cache state ≡ some r → IsDistance spec state r

-- After the action the case can be completed in fewer than `remaining` actions.
abbrev pub Affords : PlanSpec → ℕ → Option ModelState → Type 0
Affords spec remaining reached =
    (next : ModelState) × (reached ≡ some next)
    × ((d : ℕ) × IsDistance spec next (some d) × (d < remaining))

-- Any history shows how far the state is at most.
pub IsDistance-history :
    (spec : PlanSpec) (state : ModelState) (r : Option ℕ) (actions : List PlanActionKind)
    → IsDistance spec state r
    → Completes spec state actions
    → (d : ℕ) × (r ≡ some d) × (d ≤ length actions)
IsDistance-history spec state none actions h c = absurd (h actions c)
IsDistance-history spec state (some d) actions h c = (d, refl, h.1 actions c)

some_inj : {s t : ModelState} → some s ≡ some t → s ≡ t
some_inj e = cc

module _ (spec : PlanSpec) (bounds : InBounds spec) where
  pub minimum-IsSound :
      (state : ModelState) (cache : Cache)
      → measure spec state < search_fuel
      → IsSound spec cache
      → IsDistance spec state (minimum_actions_to_complete search_fuel spec state cache).0
        × IsSound spec (minimum_actions_to_complete search_fuel spec state cache).1
  minimum-IsSound state cache low sound =
      let (found, extends) =
        minimum_actions-IsDistance spec bounds search_fuel state cache low (λ s r l. sound s r) in
      (found, λ s r e. elim (extends s r e) [ inl h ↦ sound s r h | inr h ↦ h ])

  -- What the filter promises of a list: the kept actions, and the cache that is left.
  abbrev Filters : ℕ → ModelState → List PlanActionKind → List PlanActionKind × Cache → Type 0
  Filters remaining state offered (kept, cache) =
      ((action : PlanActionKind)
        → Member action kept
        → Member action offered × Affords spec remaining (apply_action state action))
      × ((action : PlanActionKind)
          → Member action offered
          → Affords spec remaining (apply_action state action)
          → Member action kept)
      × IsSound spec cache

  within→affords :
      (remaining : ℕ) (next : ModelState) (r : Option ℕ)
      → IsDistance spec next r
      → is_within remaining r ≡ true
      → Affords spec remaining (some next)
  within→affords remaining next none h e = cc
  within→affords remaining next (some d) h e = (next, refl, (d, h, ground arith))

  affords→within :
      (remaining : ℕ) (next : ModelState) (r : Option ℕ)
      → IsDistance spec next r
      → Affords spec remaining (some next)
      → is_within remaining r ≡ true
  affords→within remaining next r h (other, e, (d, short, low)) =
      let (actions, len, c) = short.0 in
      let c' = subst (λ s. Completes spec s actions) (sym (some_inj e)) c in
      let (d', found, least) = IsDistance-history spec next r actions h c' in
      rw found (ground arith)

  keep-Filters :
      (remaining : ℕ) (state : ModelState) (action : PlanActionKind)
      (offered others : List PlanActionKind) (cache : Cache) (test : Bool)
      → (test ≡ true → Affords spec remaining (apply_action state action))
      → (Affords spec remaining (apply_action state action) → test ≡ true)
      → Filters remaining state offered (others, cache)
      → Filters remaining state (action ∷ offered) (keep_if test action others, cache)
  keep-Filters remaining state action offered others cache true yes_if only_if (back, onto, sound) =
      (
        λ a m. elim m [
          | inl e ↦ (
            inl e,
            subst (λ x. Affords spec remaining (apply_action state x)) (sym e) (yes_if refl),
          )
          | inr k ↦ (inr (back a k).0, (back a k).1)
        ],
        λ a m h. elim m [ inl e ↦ inl e | inr k ↦ inr (onto a k h) ],
        sound,
      )
  keep-Filters remaining state action offered others cache false yes_if only_if
        (back, onto, sound) =
      (
        λ a m. (inr (back a m).0, (back a m).1),
        λ a m h. elim m [
          | inl e ↦ absurd (
              false≢true (only_if (subst (λ x. Affords spec remaining (apply_action state x)) e h)))
          | inr k ↦ onto a k h
        ],
        sound,
      )

  afford-Filters :
      (remaining : ℕ) (state : ModelState) (action : PlanActionKind) (reached : Option ModelState)
      (offered : List PlanActionKind) (rest : Cache → List PlanActionKind × Cache) (cache : Cache)
      → apply_action state action ≡ reached
      → ((next : ModelState) → reached ≡ some next → measure spec next < search_fuel)
      → ((c : Cache) → IsSound spec c → Filters remaining state offered (rest c))
      → IsSound spec cache
      → Filters remaining state (action ∷ offered) (afford spec remaining action reached rest cache)
  afford-Filters remaining state action none offered rest cache e low others sound =
      keep-Filters remaining state action offered (rest cache).0 (rest cache).1 false (λ t. cc)
        (λ a. cc (e, a.1)) (others cache sound)
  afford-Filters remaining state action (some next) offered rest cache e low others sound =
      let (found, sound') = minimum-IsSound next cache (low next refl) sound in
      let (distance, cache') = minimum_actions_to_complete search_fuel spec next cache in
      keep-Filters remaining state action offered (rest cache').0 (rest cache').1
        (is_within remaining distance) (λ t. rw e (within→affords remaining next distance found t))
        (λ a. affords→within remaining next distance found (rw e at a)) (others cache' sound')

  -- The filter keeps an action exactly if it is offered and the case can still be completed after
  -- it in fewer than the remaining actions; the cache stays sound.
  pub affordable-Filters :
      (remaining : ℕ) (state : ModelState) (offered : List PlanActionKind) (cache : Cache)
      → All
          (λ action.
            (next : ModelState)
            → apply_action state action ≡ some next
            → measure spec next < search_fuel)
          offered
      → IsSound spec cache
      → Filters remaining state offered (affordable spec remaining state offered cache)
  affordable-Filters remaining state [] cache low sound =
      (λ a m. elim m [ ], λ a m h. elim m [ ], sound)
  affordable-Filters remaining state (action ∷ offered) cache low sound =
      afford-Filters remaining state action (apply_action state action) offered
        (affordable spec remaining state offered) cache refl low.0
        (λ c. affordable-Filters remaining state offered c low.1) sound
