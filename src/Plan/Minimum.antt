-- ===== src/Plan/Minimum.antt =====
-- crates/tiv-core/src/plan.rs: `minimum_actions_to_complete`, a depth-first search that remembers
-- its answers in a cache. The cache is a function from states, the state of the search is passed
-- along. The search recurs on fuel: `Distance` proves that `search_fuel` is never used up.
use tx_proof.Common.{
  ℕ, zero, suc, true, false, Option, none, some, List, [], ◌∷◌, least, one_more, ite,
}
use tx_proof.Plan.Types.{PlanActionKind}
use tx_proof.Plan.Spec.{PlanSpec}
use tx_proof.Plan.Model.{ModelState, is_complete, state_discrete}
use tx_proof.Plan.Eligible.{eligible_actions}
use tx_proof.Plan.Apply.{apply_action}

-- `BTreeMap<ModelState, Option<usize>>`
abbrev pub Cache : Type 0
Cache = ModelState → Option (Option ℕ)

abbrev pub empty_cache : Cache
empty_cache state = none

abbrev pub cache_insert : ModelState → Option ℕ → Cache → Cache
cache_insert state minimum cache =
    λ other. ite (state_discrete other state) (some minimum) (cache other)

-- The search is tried on the state that an action led to, before the rest of the actions; each
-- call hands its cache to the next one. An action that did not apply is passed over.
abbrev pub visit :
    (ModelState → Cache → Option ℕ × Cache)
    → Option ModelState
    → (Cache → Option ℕ × Cache)
    → Cache
    → Option ℕ × Cache
visit look none rest cache = rest cache
visit look (some next) rest cache =
    let (distance, cache') = look next cache in
    let (others, cache'') = rest cache' in (least distance others, cache'')

-- `filter_map(apply_action).filter_map(minimum).min()`
abbrev pub minimum_over :
    (ModelState → Cache → Option ℕ × Cache)
    → ModelState
    → List PlanActionKind
    → Cache
    → Option ℕ × Cache
minimum_over look state [] cache = (none, cache)
minimum_over look state (action ∷ actions) cache =
    visit look (apply_action state action) (minimum_over look state actions) cache

unfoldable pub minimum_actions_to_complete : ℕ → PlanSpec → ModelState → Cache → Option ℕ × Cache
minimum_actions_to_complete zero spec state cache = (none, cache)
minimum_actions_to_complete (suc fuel) spec state cache = elim (is_complete state) [
  | true ↦ (some 0, cache)
  | false ↦ elim (cache state) [
    | some cached ↦ (cached, cache)
    | none ↦
        let (least_rest, cache') =
          minimum_over (minimum_actions_to_complete fuel spec) state (eligible_actions state spec)
            (cache_insert state none cache) in
        (one_more least_rest, cache_insert state (one_more least_rest) cache')
  ]
]

-- Above every `measure` of a state that the planner meets.
abbrev pub search_fuel : ℕ
search_fuel = 2000
