-- ===== src/Plan/Caches.antt =====
-- crates/tiv-core/src/plan.rs: what the cache of the search knows. An entry is right if it is the
-- distance of its state; the marks of states that are being searched are not.
use tx_proof.Common.{
  ℕ, suc, ◌≤◌, ◌<◌, ◌≡◌, sym, subst, ap, ◌∙◌, arith, ◌⊎◌, inl, inr, Option, none, some, if_pos,
  if_neg, ◌≢◌,
}
use tx_proof.Plan.Spec.{PlanSpec}
use tx_proof.Plan.Model.{ModelState, state_discrete}
use tx_proof.Plan.Minimum.{Cache, cache_insert}
use tx_proof.Plan.History.{IsDistance}
use tx_proof.Plan.Measure.{measure}

answer_inj : {r s : Option ℕ} → some r ≡ some s → r ≡ s
answer_inj e = cc

insert-hit :
    (state other : ModelState) (r : Option ℕ) (cache : Cache)
    → other ≡ state
    → cache_insert state r cache other ≡ some r
insert-hit state other r cache same =
    if_pos (state_discrete other state) same (some r) (cache other)

insert-miss :
    (state other : ModelState) (r : Option ℕ) (cache : Cache)
    → other ≢ state
    → cache_insert state r cache other ≡ cache other
insert-miss state other r cache differ =
    if_neg (state_discrete other state) differ (some r) (cache other)

module _ (spec : PlanSpec) where
  abbrev pub Known : ℕ → Cache → Type 0
  Known bound cache =
      (state : ModelState) (r : Option ℕ)
      → measure spec state < bound
      → cache state ≡ some r
      → IsDistance spec state r

  abbrev pub Extends : Cache → Cache → Type 0
  Extends cache cache' =
      (state : ModelState) (r : Option ℕ)
      → cache' state ≡ some r
      → (cache state ≡ some r) ⊎ IsDistance spec state r

  pub Extends-trans : (a b c : Cache) → Extends a b → Extends b c → Extends a c
  Extends-trans a b c f g state r e = elim (g state r e) [ inl h ↦ f state r h | inr h ↦ inr h ]

  pub Known-Extends : (n : ℕ) (a b : Cache) → Known n a → Extends a b → Known n b
  Known-Extends n a b known f state r m e = elim (f state r e) [
    | inl h ↦ known state r m h
    | inr h ↦ h
  ]

  -- A search whose answers are right below a bound, for caches that are right there.
  abbrev pub IsRightBelow : ℕ → (ModelState → Cache → Option ℕ × Cache) → Type 0
  IsRightBelow bound look =
      (state : ModelState) (cache : Cache)
      → measure spec state < bound
      → Known (suc (measure spec state)) cache
      → IsDistance spec state (look state cache).0 × Extends cache (look state cache).1

  pub Known-le : (m n : ℕ) (cache : Cache) → m ≤ n → Known n cache → Known m cache
  Known-le m n cache h known state r l = known state r (omega arith)

  -- What is learnt under the mark of a state that is being searched, and the answer for that state.
  pub Extends-finish :
      (state : ModelState) (cache cache' : Cache) (r : Option ℕ)
      → IsDistance spec state r
      → Extends (cache_insert state none cache) cache'
      → Extends cache (cache_insert state r cache')
  Extends-finish state cache cache' r found extends other s e = elim (state_discrete other state) [
    | yes same ↦ inr (
        rw same (
          subst (IsDistance spec state)
            (answer_inj (sym (insert-hit state other r cache' same) ∙ e)) found))
    | no differ ↦ elim (extends other s (sym (insert-miss state other r cache' differ) ∙ e)) [
      | inl h ↦ inl (sym (insert-miss state other none cache differ) ∙ h)
      | inr h ↦ inr h
    ]
  ]

  pub Known-mark :
      (state : ModelState) (cache : Cache)
      → Known (suc (measure spec state)) cache
      → Known (measure spec state) (cache_insert state none cache)
  Known-mark state cache known other r low e = elim (state_discrete other state) [
    | yes same ↦ absurd (below_itself state other low same)
    | no differ ↦ known other r (omega arith) (sym (insert-miss state other none cache differ) ∙ e)
  ]
    where
      below_itself : (s t : ModelState) → measure spec t < measure spec s → t ≡ s → ⊥
      below_itself s t l q = omega (arith, ap (measure spec) q)
