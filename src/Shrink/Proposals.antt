-- ===== src/Shrink/Proposals.antt =====
-- crates/tiv-core/src/shrink.rs: the proposals of `candidate_batch`, in the order of its loops.
use tx_proof.Common.{
  ℕ, zero, suc, ◌+◌, ◌-◌, min, Bool, true, false, Option, none, some, List, [], ◌∷◌, ◌++◌, length,
  get_elem?, take, flat_map, map, ltb, if◌then◌else◌,
}
use tx_proof.Plan.Types.{
  PlanActionKind, retry_business_request, retry_provider_request, retrieve_payment_intent,
  release_provider_gate, kill_application, restart_and_await_health, duplicate_webhook,
  reorder_webhooks, delay_webhook, drop_webhook, deliver_webhook,
}
use tx_proof.Shrink.Lineage.{ShrinkAction}
use tx_proof.Shrink.Simplify.{simplified_provider_actions}
use tx_proof.Shrink.Chunks.{hierarchical_chunk_sizes}

module _ {A : Type 0} where
  abbrev pub drop : ℕ → List A → List A
  drop zero xs = xs
  drop (suc n) [] = []
  drop (suc n) (x ∷ xs) = drop n xs

  -- `drain(start..end)`
  abbrev pub drain : ℕ → ℕ → List A → List A
  drain start end xs = take start xs ++ drop end xs

  abbrev pub remove : ℕ → List A → List A
  remove index xs = drain index (suc index) xs

  -- `step_by`, which passes over `skip` elements first.
  abbrev pub step_by : ℕ → ℕ → List A → List A
  step_by skip size [] = []
  step_by zero size (x ∷ xs) = x ∷ step_by (size - 1) size xs
  step_by (suc skip) size (x ∷ xs) = step_by skip size xs

abbrev pub range_from : ℕ → ℕ → List ℕ
range_from start zero = []
range_from start (suc count) = start ∷ range_from (suc start) count

abbrev pub sizes_or_empty : Option (List ℕ) → List ℕ
sizes_or_empty none = []
sizes_or_empty (some sizes) = sizes

abbrev pub set_kind : ℕ → PlanActionKind → List ShrinkAction → List ShrinkAction
set_kind index kind [] = []
set_kind zero kind (entry ∷ entries) =
    record { source_action_id = entry.source_action_id; kind = kind } ∷ entries
set_kind (suc index) kind (entry ∷ entries) = entry ∷ set_kind index kind entries

abbrev pub is_removable : PlanActionKind → Bool
is_removable (retry_business_request _) = true
is_removable (retry_provider_request _) = true
is_removable retrieve_payment_intent = true
is_removable release_provider_gate = true
is_removable _ = false

abbrev pub is_restart : Option ShrinkAction → Bool
is_restart none = false
is_restart (some entry) = elim entry.kind [ restart_and_await_health ↦ true | _ ↦ false ]

module _ (schedule : List ShrinkAction) where
  -- The first loops: the schedule without one chunk of each size.
  abbrev pub chunk_proposals : ℕ → List (List ShrinkAction)
  chunk_proposals size =
      map (λ start. drain start (min (start + size) (length schedule)) schedule)
        (step_by 0 size (range_from 0 (length schedule)))

  unfoldable pub all_chunk_proposals : List (List ShrinkAction)
  all_chunk_proposals =
      flat_map chunk_proposals (sizes_or_empty (hierarchical_chunk_sizes (length schedule)))

  -- The second loop
  abbrev pub removal_proposals : ℕ → List ShrinkAction → List (List ShrinkAction)
  removal_proposals index [] = []
  removal_proposals index (entry ∷ entries) =
      let others = removal_proposals (suc index) entries in
      if is_removable entry.kind then remove index schedule ∷ others else others

  abbrev pub without_kill : ℕ → List ShrinkAction
  without_kill index =
      let proposal = remove index schedule in
      if is_restart (get_elem? proposal index) then remove index proposal else proposal

  abbrev pub without_delay : ℕ → ℕ → List (List ShrinkAction)
  without_delay index milliseconds =
      (if ltb 0 milliseconds then set_kind index (delay_webhook 0) schedule ∷ [] else [])
      ++ remove index schedule ∷ []

  -- The body of the third loop
  abbrev pub kind_proposals : ℕ → PlanActionKind → List (List ShrinkAction)
  kind_proposals index (kill_application _) = without_kill index ∷ []
  kind_proposals index duplicate_webhook = remove index schedule ∷ []
  kind_proposals index reorder_webhooks = remove index schedule ∷ []
  kind_proposals index (delay_webhook milliseconds) = without_delay index milliseconds
  kind_proposals index drop_webhook = set_kind index deliver_webhook schedule ∷ []
  kind_proposals index kind =
      map (λ simplified. set_kind index simplified schedule) (simplified_provider_actions kind)

  abbrev pub entry_proposals : ℕ → List ShrinkAction → List (List (List ShrinkAction))
  entry_proposals index [] = []
  entry_proposals index (entry ∷ entries) =
      kind_proposals index entry.kind ∷ entry_proposals (suc index) entries
