-- ===== src/Shrink/Chunks.antt =====
-- crates/tiv-core/src/shrink.rs: `hierarchical_chunk_sizes`. The loop recurs on fuel, one unit for each
-- round; `none` means that the fuel ran out.
use tx_proof.Common.{
  ℕ, zero, suc, ◌+◌, ◌-◌, ◌*◌, ◌/◌, ◌^◌, ◌≤◌, ◌<◌, ◌≡◌, ◌↔◌, ◌⊎◌, refl, subst, arith, min, Bool,
  true, false, Option, none, some, List, [], ◌∷◌, ltb, ◌==◌, if◌then◌else◌, Bool-cases, inl, inr,
}
use native.Mathlib.Nat.{div-lt_iff_lt-mul, mul-le-mul_left}

abbrev pub usize_max : ℕ
usize_max = 2 ^ 64 - 1

-- `a.div_ceil(b).max(1)`
abbrev pub chunk_size : ℕ → ℕ → ℕ
chunk_size action_count partitions =
    let c = (action_count + (partitions - 1)) / partitions in if c == 0 then 1 else c

abbrev pub differs_from : Option ℕ → ℕ → Bool
differs_from none size = true
differs_from (some last) size = if last == size then false else true

abbrev pub push_size : Bool → ℕ → Option (List ℕ) → Option (List ℕ)
push_size fresh size none = none
push_size fresh size (some sizes) = some (if fresh then size ∷ sizes else sizes)

-- The sizes that the loop still pushes, of which `last` is the one pushed last.
unfoldable pub chunk_loop : ℕ → ℕ → ℕ → Option ℕ → Option (List ℕ)
chunk_loop zero action_count partitions last = none
chunk_loop (suc fuel) action_count partitions last =
    let size = chunk_size action_count partitions in
    let fresh = differs_from last size in
    push_size fresh size (elim (size == 1) [
      | true ↦ some []
      | false ↦ chunk_loop fuel action_count (min (partitions * 2) usize_max) (some size)
    ])

unfoldable pub hierarchical_chunk_sizes : ℕ → Option (List ℕ)
hierarchical_chunk_sizes action_count =
    if ltb action_count 2 then some (1 ∷ []) else chunk_loop action_count action_count 2 none

-- Sizes that fall strictly from below `bound` down to one.
abbrev pub FallsToOne : ℕ → List ℕ → Type 0
FallsToOne bound [] = ⊥
FallsToOne bound (size ∷ sizes) =
    (size < bound) × ((size ≡ 1) × (sizes ≡ []) ⊎ FallsToOne size sizes)

-- What the loop keeps: the size of a round is at most that of the last one.
abbrev Follows : ℕ → Option ℕ → ℕ → Type 0
Follows size none bound = size < bound
Follows size (some last) bound = (size ≤ last) × (last ≡ bound) × (2 ≤ last)

chunk-le_iff : (n p y : ℕ) → 1 ≤ p → 1 ≤ n → 1 ≤ y → (chunk_size n p ≤ y) ↔ (n ≤ y * p)
chunk-le_iff n p y hp hn hy =
    let (to, from) = div-lt_iff_lt-mul {k = p} {x = n + (p - 1)} {y = suc y} hp in
    let expanded : suc y * p ≡ p + y * p = omega arith in
    (
      λ h. let bound = to (ground arith) in omega arith,
      λ h. let bound = from (omega arith) in ground arith,
    )

chunk-pos : (n p : ℕ) → 1 ≤ chunk_size n p
chunk-pos n p = ground arith

chunk-le : (n p q : ℕ) → 1 ≤ p → p ≤ q → 1 ≤ n → chunk_size n q ≤ chunk_size n p
chunk-le n p q hp l hn =
    let y = chunk_size n p in
    let own = (chunk-le_iff n p y hp hn (chunk-pos n p)).0 (omega arith) in
    let wider = mul-le-mul_left y l in
    (chunk-le_iff n q y (omega arith) hn (chunk-pos n p)).1 (omega arith)

chunk_one : (n p : ℕ) → 1 ≤ p → n ≤ p → 1 ≤ n → chunk_size n p ≡ 1
chunk_one n p hp l hn =
    let small = (chunk-le_iff n p 1 hp hn (omega arith)).1 (omega arith) in
    let large = chunk-pos n p in omega arith

push_size_falls :
    (size : ℕ) (last : Option ℕ) (bound : ℕ) (sizes : List ℕ)
    → Follows size last bound
    → ((size ≡ 1) × (sizes ≡ []) ⊎ FallsToOne size sizes)
    → (result : List ℕ) × (push_size (differs_from last size) size (some sizes) ≡ some result)
      × FallsToOne bound result
push_size_falls size none bound sizes h rest = (size ∷ sizes, refl, (h, rest))
push_size_falls size (some last) bound sizes h rest = elim (Bool-cases (last == size)) [
  | inl e ↦ elim rest [
    | inl r ↦ absurd (ground arith)
    | inr r ↦
        let same : size ≡ bound = ground arith in
        (sizes, rw e refl, subst (λ b. FallsToOne b sizes) same r)
  ]
  | inr e ↦ (size ∷ sizes, rw e refl, (ground arith, rest))
]

chunk_loop_falls :
    (fuel n p : ℕ) (last : Option ℕ) (bound : ℕ)
    → n - p < fuel
    → 1 ≤ p
    → 2 ≤ n
    → n ≤ usize_max
    → Follows (chunk_size n p) last bound
    → (sizes : List ℕ) × (chunk_loop fuel n p last ≡ some sizes) × FallsToOne bound sizes
unfolding chunk_loop
chunk_loop_falls zero n p last bound f hp hn small h = absurd (omega arith)
chunk_loop_falls (suc fuel) n p last bound f hp hn small h =
    elim (Bool-cases (chunk_size n p == 1)) [
      | inl e ↦ rw e (push_size_falls (chunk_size n p) last bound [] h (inl (ground arith, refl)))
      | inr e ↦
          let size = chunk_size n p in
          let at_least = chunk-pos n p in
          let large : 2 ≤ size = ground arith in
          let under : p < n = elim (Bool-cases (ltb p n)) [
            | inl l ↦ ground arith
            | inr l ↦
                let one = chunk_one n p hp (ground arith) (omega arith) in absurd (omega arith)
          ] in
          let falls = chunk-le n p (min (p * 2) usize_max) hp (ground arith) (omega arith) in
          let (sizes, ran, rest) =
            chunk_loop_falls fuel n (min (p * 2) usize_max) (some size) size (ground arith)
              (ground arith) hn small (falls, refl, large) in
          rw (e, ran) (push_size_falls size last bound sizes h (inr rest))
    ]

-- For every number of actions within a machine word the loop ends, and the sizes fall strictly to
-- one, from below the number of actions if that is at least two.
pub hierarchical_chunk_sizes-FallsToOne :
    (action_count : ℕ)
    → action_count ≤ usize_max
    → (sizes : List ℕ) × (hierarchical_chunk_sizes action_count ≡ some sizes)
      × FallsToOne (if ltb action_count 2 then 2 else action_count) sizes
unfolding hierarchical_chunk_sizes
hierarchical_chunk_sizes-FallsToOne n small = elim (Bool-cases (ltb n 2)) [
  | inl e ↦ rw e (1 ∷ [], refl, (omega arith, inl (refl, refl)))
  | inr e ↦
      let half =
        (chunk-le_iff n 2 (n - 1) (omega arith) (ground arith) (ground arith)).1 (ground arith) in
      rw e (
        chunk_loop_falls n n 2 none n (ground arith) (omega arith) (ground arith) small
          (ground arith))
]
