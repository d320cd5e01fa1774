-- ===== src/Plan/Distance.antt =====
-- crates/tiv-core/src/plan.rs: what `minimum_actions_to_complete` computes. An abstract description,
-- the length of a shortest history that completes the case, and the proof that the search with its
-- cache computes it.
use tx_proof.Common.{
  ℕ, zero, suc, ◌<◌, ◌≡◌, refl, sym, subst, arith, ◌⊎◌, inl, inr, true, false, Option, none, some,
  List, [], ◌∷◌, Shortest, Shortest-iff, Shortest-least, Shortest-one_more, one_more, Member, All,
  All-imp, Bool-cases, Option-cases,
}
use tx_proof.Plan.Types.{PlanActionKind}
use tx_proof.Plan.Spec.{PlanSpec}
use tx_proof.Plan.Model.{ModelState, is_complete}
use tx_proof.Plan.Eligible.{eligible_actions}
use tx_proof.Plan.Apply.{apply_action}
use tx_proof.Plan.Minimum.{Cache, cache_insert, visit, minimum_over, minimum_actions_to_complete}
use tx_proof.Plan.History.{Completes, IsDistance}
use tx_proof.Plan.Caches.{
  Known, Extends, Extends-trans, Known-Extends, IsRightBelow, Known-le, Extends-finish, Known-mark,
}
use tx_proof.Plan.Guards.{eligible_actions-Permits}
use tx_proof.Plan.Measure.{InBounds, measure, apply_action-falls}

none≢some : {s : ModelState} → none ≡ some s → ⊥
none≢some e = cc

some_inj : {s t : ModelState} → some s ≡ some t → s ≡ t
some_inj e = cc

module _ (spec : PlanSpec) where
  abbrev Follows : ModelState → PlanActionKind → List PlanActionKind → Type 0
  Follows state action actions =
      (next : ModelState) × (apply_action state action ≡ some next) × Completes spec next actions

  -- What remains of a history that begins with one of the listed actions.
  abbrev Begins : ModelState → List PlanActionKind → List PlanActionKind → Type 0
  Begins state [] actions = ⊥
  Begins state (action ∷ offered) actions =
      Follows state action actions ⊎ Begins state offered actions

  Begins-Member :
      (state : ModelState) (offered actions : List PlanActionKind) (action : PlanActionKind)
      → Member action offered
      → Follows state action actions
      → Begins state offered actions
  Begins-Member state [] actions action m f = elim m [ ]
  Begins-Member state (x ∷ offered) actions action (inl e) f =
      inl (subst (λ a. Follows state a actions) e f)
  Begins-Member state (x ∷ offered) actions action (inr m) f =
      inr (Begins-Member state offered actions action m f)

  Member-Begins :
      (state : ModelState) (offered actions : List PlanActionKind)
      → Begins state offered actions
      → (action : PlanActionKind) × Member action offered × Follows state action actions
  Member-Begins state [] actions b = elim b [ ]
  Member-Begins state (x ∷ offered) actions (inl f) = (x, inl refl, f)
  Member-Begins state (x ∷ offered) actions (inr b) =
      let (action, m, f) = Member-Begins state offered actions b in (action, inr m, f)

  -- The remains of a history after the state that an action led to, if it led to one.
  abbrev Resumes : Option ModelState → List PlanActionKind → Type 0
  Resumes reached actions =
      (next : ModelState) × (reached ≡ some next) × Completes spec next actions

  module _ (look : ModelState → Cache → Option ℕ × Cache) (bound : ℕ)
      (right : IsRightBelow spec bound look) where
    visit-Shortest :
        (reached : Option ModelState) (rest : Cache → Option ℕ × Cache)
        (P : List PlanActionKind → Type 0) (cache : Cache)
        → ((next : ModelState) → reached ≡ some next → measure spec next < bound)
        → ((c : Cache) → Known spec bound c → Shortest P (rest c).0 × Extends spec c (rest c).1)
        → Known spec bound cache
        → Shortest
            (λ actions. Resumes reached actions ⊎ P actions)
            (visit look reached rest cache).0
          × Extends spec cache (visit look reached rest cache).1
    visit-Shortest none rest P cache falls others known =
        let (short, extends) = others cache known in
        (
          Shortest-iff P _ (rest cache).0 (λ actions p. inr p)
              (λ actions either. elim either [
                | inl (next, e, c) ↦ absurd (none≢some e)
                | inr p ↦ p
              ])
              short,
          extends,
        )
    visit-Shortest (some next) rest P cache falls others known =
        let low = falls next refl in
        let (first, extends) =
          right next cache low (Known-le spec (suc (measure spec next)) bound cache low known) in
        let (short, extends') =
          others (look next cache).1
            (Known-Extends spec bound cache (look next cache).1 known extends) in
        (
          Shortest-least (Resumes (some next)) P (look next cache).0 (rest (look next cache).1).0
              (Shortest-iff (Completes spec next) (Resumes (some next)) (look next cache).0
                (λ actions c. (next, refl, c))
                (λ actions r. subst (λ s. Completes spec s actions) (sym (some_inj r.1)) r.2) first)
              short,
          Extends-trans spec cache (look next cache).1 (rest (look next cache).1).1 extends
              extends',
        )

    minimum_over-Shortest :
        (state : ModelState) (offered : List PlanActionKind) (cache : Cache)
        → All
            (λ action.
              (next : ModelState)
              → apply_action state action ≡ some next
              → measure spec next < bound)
            offered
        → Known spec bound cache
        → Shortest (Begins state offered) (minimum_over look state offered cache).0
          × Extends spec cache (minimum_over look state offered cache).1
    minimum_over-Shortest state [] cache falls known = (λ actions b. b, λ s r e. inl e)
    minimum_over-Shortest state (action ∷ offered) cache falls known =
        visit-Shortest (apply_action state action) (minimum_over look state offered)
          (Begins state offered) cache falls.0 (λ c. minimum_over-Shortest state offered c falls.1)
          known

module _ (spec : PlanSpec) (bounds : InBounds spec) where
  offered-falls :
      (state : ModelState)
      → All
          (λ action.
            (next : ModelState)
            → apply_action state action ≡ some next
            → measure spec next < measure spec state)
          (eligible_actions state spec)
  offered-falls state =
      All-imp (λ action p next e. apply_action-falls spec bounds state next action p e)
        (eligible_actions state spec) (eligible_actions-Permits spec state)

  -- A history of a state that is not complete, from the remains after its first action.
  IsDistance-one_more :
      (state : ModelState) (r : Option ℕ)
      → is_complete state ≡ false
      → Shortest (Begins spec state (eligible_actions state spec)) r
      → IsDistance spec state (one_more r)
  IsDistance-one_more state r open_case =
      Shortest-one_more (Begins spec state (eligible_actions state spec)) (Completes spec state) r
        (λ done. cc (open_case, done))
        (λ action actions c.
          Begins-Member spec state (eligible_actions state spec) actions action c.0 c.1)
        (λ actions b.
          let (action, m, f) = Member-Begins spec state (eligible_actions state spec) actions b in
          (action, (m, f)))

  complete-IsDistance :
      (state : ModelState) → is_complete state ≡ true → IsDistance spec state (some 0)
  complete-IsDistance state done = (([], refl, done), λ actions c. omega arith)

  abbrev over_offered : ℕ → ModelState → Cache → Option ℕ × Cache
  over_offered fuel state cache =
      minimum_over (minimum_actions_to_complete fuel spec) state (eligible_actions state spec)
        (cache_insert state none cache)

  -- The step of the search at a state that is neither complete nor in the cache.
  searched :
      (fuel : ℕ) (state : ModelState) (cache : Cache)
      → is_complete state ≡ false
      → Known spec (measure spec state) (cache_insert state none cache)
      → IsRightBelow spec (measure spec state) (minimum_actions_to_complete fuel spec)
      → IsDistance spec state (one_more (over_offered fuel state cache).0)
        × Extends spec cache (
            cache_insert state
              (one_more (over_offered fuel state cache).0)
              (over_offered fuel state cache).1)
  searched fuel state cache open_case known right =
      let look = minimum_actions_to_complete fuel spec in
      let (short, extends) =
        minimum_over-Shortest spec look (measure spec state) right state
          (eligible_actions state spec) (cache_insert state none cache) (offered-falls state)
          known in
      let found = IsDistance-one_more state (over_offered fuel state cache).0 open_case short in
      (
        found,
        Extends-finish spec state cache (over_offered fuel state cache).1
            (one_more (over_offered fuel state cache).0) found extends,
      )

  -- With fuel above the measure of the state, and a cache that is right up to there, the search
  -- answers with the length of a shortest history, and what it adds to the cache is right.
  pub minimum_actions-IsDistance :
      (fuel : ℕ) (state : ModelState) (cache : Cache)
      → measure spec state < fuel
      → Known spec (suc (measure spec state)) cache
      → IsDistance spec state (minimum_actions_to_complete fuel spec state cache).0
        × Extends spec cache (minimum_actions_to_complete fuel spec state cache).1
  unfolding minimum_actions_to_complete
  minimum_actions-IsDistance zero state cache low known = elim low [ ]
  minimum_actions-IsDistance (suc fuel) state cache low known =
      elim (Bool-cases (is_complete state)) [
        | inl done ↦
            rw (done, minimum_actions_to_complete) (complete-IsDistance state done, λ s r e. inl e)
        | inr open_case ↦ elim (Option-cases (cache state)) [
          | inr (cached, hit) ↦
              rw (open_case, minimum_actions_to_complete, hit)
                (known state cached (omega arith) hit, λ s r e. inl e)
          | inl miss ↦
              rw (open_case, minimum_actions_to_complete, miss)
                (searched fuel state cache open_case (Known-mark spec state cache known)
                  λ s c l. minimum_actions-IsDistance fuel s c (omega arith))
        ]
      ]
