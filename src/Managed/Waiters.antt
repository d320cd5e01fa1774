-- ===== src/Managed/Waiters.antt =====
-- crates/tiv-stripe-pi/src/lib.rs: the waiters of `ManagedFixture`, each on the signal of a gate.
use tx_proof.Common.{
  ℕ, ◌≡◌, ◌≢◌, refl, sym, ◌∙◌, subst, arith, some, List, [], ◌∷◌, ◌==◌, ℕ_discrete, Bool-cases, inl,
  inr, ◌⊎◌, lookup, insert_entry, lookup-insert_cases, Member,
}
use tx_proof.Managed.State.{
  GateSignal, pending, cancelled, ManagedFixture, keys, remove_entry, signal, cancel_all,
}

-- A gate that a map holds, so that a command or a reset can still find its signal
abbrev pub IsHeld : ManagedFixture → ℕ → Type 0
IsHeld managed gate_id =
    Member gate_id (keys managed.held_gates)
    ⊎ (Member gate_id (keys managed.held_webhook_requests)
        ⊎ Member gate_id (keys managed.held_webhook_responses))

-- No signal is pending without a map that holds its gate: no waiter is left behind.
abbrev pub HasNoLostWaiter : ManagedFixture → Type 0
HasNoLostWaiter managed =
    (gate_id : ℕ)
    → lookup ℕ_discrete managed.signals gate_id ≡ some pending
    → IsHeld managed gate_id

module _ {V : Type 0} where
  pub keys-insert_new :
      (entries : List (ℕ × V)) (key : ℕ) (value : V)
      → Member key (keys (insert_entry ℕ_discrete entries key value))
  keys-insert_new [] key value = inl refl
  keys-insert_new ((k, v) ∷ rest) key value = elim (ℕ_discrete k key) [
    | yes e ↦ ground arith
    | no n ↦ ground (arith, keys-insert_new rest key value)
  ]

  pub keys-insert_old :
      (entries : List (ℕ × V)) (key other : ℕ) (value : V)
      → Member other (keys entries)
      → Member other (keys (insert_entry ℕ_discrete entries key value))
  keys-insert_old [] key other value m = elim m [ ]
  keys-insert_old ((k, v) ∷ rest) key other value m = elim (ℕ_discrete k key) [
    | yes e ↦ ground arith
    | no n ↦ ground (arith, keys-insert_old rest key other value)
  ]

  pub keys-remove :
      (entries : List (ℕ × V)) (key other : ℕ)
      → other ≢ key
      → Member other (keys entries)
      → Member other (keys (remove_entry key entries))
  keys-remove [] key other differs m = elim m [ ]
  keys-remove ((k, v) ∷ rest) key other differs (inl e) = elim (Bool-cases (k == key)) [
    | inl same ↦ absurd (differs (ground arith))
    | inr kept ↦ rw kept (inl e)
  ]
  keys-remove ((k, v) ∷ rest) key other differs (inr m) = elim (Bool-cases (k == key)) [
    | inl same ↦ rw same (keys-remove rest key other differs m)
    | inr kept ↦ rw kept (inr (keys-remove rest key other differs m))
  ]

-- The signals that are pending after a reset were so before, and are not of its gates.
pub cancel_all-pending :
    (gates : List ℕ) (signals : List (ℕ × GateSignal)) (gate_id : ℕ)
    → lookup ℕ_discrete (cancel_all gates signals) gate_id ≡ some pending
    → (Member gate_id gates → ⊥) × (lookup ℕ_discrete signals gate_id ≡ some pending)
cancel_all-pending [] signals gate_id h = (λ m. m, h)
cancel_all-pending (gate ∷ gates) signals gate_id h =
    let (others, before) = cancel_all-pending gates (signal cancelled gate signals) gate_id h in
    elim (lookup-insert_cases ℕ_discrete signals gate_id gate cancelled) [
      | inl (same, stored) ↦ absurd (differ (sym stored ∙ before))
      | inr (differs, kept) ↦
          (λ m. elim m [ inl e ↦ differs e | inr later ↦ others later ], sym kept ∙ before)
    ]
  where
    differ : some cancelled ≡ some pending → ⊥
    differ e = cc

-- A new gate with a pending signal
pub held-HasNoLostWaiter :
    (before after : ManagedFixture) (gate_id : ℕ)
    → after.signals ≡ signal pending gate_id before.signals
    → IsHeld after gate_id
    → ((other : ℕ) → IsHeld before other → IsHeld after other)
    → HasNoLostWaiter before
    → HasNoLostWaiter after
held-HasNoLostWaiter before after gate_id signals here others h other waits =
    elim (lookup-insert_cases ℕ_discrete before.signals other gate_id pending) [
      | inl (same, _) ↦ subst (IsHeld after) (sym same) here
      | inr (differs, kept) ↦
          others other (
            h other
              (sym kept ∙ subst (λ s. lookup ℕ_discrete s other ≡ some pending) signals waits))
    ]

-- A gate that is left with its signal stored
pub left-HasNoLostWaiter :
    (before after : ManagedFixture) (gate_id : ℕ) (state : GateSignal)
    → state ≢ pending
    → after.signals ≡ signal state gate_id before.signals
    → ((other : ℕ) → other ≢ gate_id → IsHeld before other → IsHeld after other)
    → HasNoLostWaiter before
    → HasNoLostWaiter after
left-HasNoLostWaiter before after gate_id state stored signals others h other waits =
    let now = subst (λ s. lookup ℕ_discrete s other ≡ some pending) signals waits in
    elim (lookup-insert_cases ℕ_discrete before.signals other gate_id state) [
      | inl (same, found) ↦ absurd (stored (some_inj (sym found ∙ now)))
      | inr (differs, kept) ↦ others other differs (h other (sym kept ∙ now))
    ]
  where
    some_inj : {a b : GateSignal} → some a ≡ some b → a ≡ b
    some_inj e = cc
