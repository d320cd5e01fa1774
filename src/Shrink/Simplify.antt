-- ===== src/Shrink/Simplify.antt =====
-- crates/tiv-core/src/shrink.rs: `simplified_provider_actions`.
use tx_proof.Common.{◌≡◌, arith, true, none, some, List, [], ◌∷◌, ◌++◌, All, if◌then◌else◌, holds}
use tx_proof.Plan.Types.{
  normal, commit_then_close, ProviderOutcomeScript, single, script_discrete, PlanActionKind,
  drive_checkout, retry_business_request, confirm_payment_intent, retry_provider_request,
}
use tx_proof.Shrink.Lineage.{is_normal, provider_script_is_simplification, kind_is_simplification}
use tx_proof.Shrink.Complexity.{complexity, is_simpler}

-- The first `if`: the first call alone, and the retry replaced by one that goes well.
abbrev pub shorter_scripts : ProviderOutcomeScript → List ProviderOutcomeScript
shorter_scripts script = elim script.retry [
  | none ↦ []
  | some retry ↦
      single script.first
      ∷ (if is_normal retry
          then []
          else record { first = commit_then_close; retry = some normal } ∷ [])
]

abbrev pub normal_script : ProviderOutcomeScript → List ProviderOutcomeScript
normal_script script =
    if holds (script_discrete script (single normal)) then [] else single normal ∷ []

abbrev pub build_all :
    (ProviderOutcomeScript → PlanActionKind) → List ProviderOutcomeScript → List PlanActionKind
build_all build [] = []
build_all build (script ∷ scripts) = build script ∷ build_all build scripts

abbrev pub simplify_script :
    (ProviderOutcomeScript → PlanActionKind) → ProviderOutcomeScript → List PlanActionKind
simplify_script build script = build_all build (shorter_scripts script ++ normal_script script)

unfoldable pub simplified_provider_actions : PlanActionKind → List PlanActionKind
simplified_provider_actions (drive_checkout script) = simplify_script drive_checkout script
simplified_provider_actions (retry_business_request script) =
    simplify_script retry_business_request script
simplified_provider_actions (confirm_payment_intent script) =
    simplify_script confirm_payment_intent script
simplified_provider_actions (retry_provider_request script) =
    simplify_script retry_provider_request script
simplified_provider_actions _ = []

-- A script that `single` or `with_transport_retry` made.
abbrev pub IsScript : ProviderOutcomeScript → Type 0
IsScript script = elim script.retry [ none ↦ Unit | some _ ↦ script.first ≡ commit_then_close ]

abbrev pub HasScript : PlanActionKind → Type 0
HasScript (drive_checkout script) = IsScript script
HasScript (retry_business_request script) = IsScript script
HasScript (confirm_payment_intent script) = IsScript script
HasScript (retry_provider_request script) = IsScript script
HasScript _ = Unit

abbrev pub IsBetter : PlanActionKind → PlanActionKind → Type 0
IsBetter kind simplified =
    (kind_is_simplification kind simplified ≡ true)
    × (is_simpler (complexity (simplified ∷ [])) (complexity (kind ∷ [])) ≡ true)
    × HasScript simplified

-- Each proposal for an action with a well-formed script may stand for the action, counts as simpler
-- than it, and has a well-formed script.
pub simplified-IsBetter :
    (kind : PlanActionKind)
    → HasScript kind
    → All (IsBetter kind) (simplified_provider_actions kind)
unfolding simplified_provider_actions kind_is_simplification provider_script_is_simplification
    complexity
simplified-IsBetter kind h = ground arith
