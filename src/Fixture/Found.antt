-- ===== src/Fixture/Found.antt =====
-- crates/tiv-stripe-pi/src/lib.rs: what the fixture's searches find, before and after operations.
use tx_proof.Common.{
  ℕ, suc, ◌≡◌, refl, sym, ap, ◌∙◌, subst, arith, Bool, true, false, Option, some, List, [], ◌∷◌,
  ◌++◌, any, find?, String, string_discrete, holds, Bool-cases, inl, inr, find_index, set_elem,
  find_index-cases,
}
use tx_proof.Fixture.Types.{PaymentIntent, succeeded, ProviderEvent}
use tx_proof.Fixture.Provider.{has_id}
use tx_proof.Fixture.Extends.{confirmed, IsSameObject, Progresses}

pub find?-append :
    (test : ProviderEvent → Bool) (events more : List ProviderEvent) (event : ProviderEvent)
    → find? test events ≡ some event
    → find? test (events ++ more) ≡ some event
find?-append test [] more event h = cc
find?-append test (first ∷ events) more event h = elim (Bool-cases (test first)) [
  | inl t ↦ rw t (rw t at h)
  | inr f ↦ rw f (find?-append test events more event (rw f at h))
]

pub find?-any :
    (test : ProviderEvent → Bool) (events : List ProviderEvent) (event : ProviderEvent)
    → find? test events ≡ some event
    → any test events ≡ true
find?-any test [] event h = cc
find?-any test (first ∷ events) event h = elim (Bool-cases (test first)) [
  | inl t ↦ ground arith
  | inr f ↦ ground (arith, find?-any test events event)
]

-- A search by identifier finds an object that has it.
pub find_index-id :
    (id : String) (xs : List PaymentIntent) (index : ℕ) (x : PaymentIntent)
    → find_index (has_id id) xs ≡ some (index, x)
    → x.id ≡ id
find_index-id id [] index x h = cc
find_index-id id (y ∷ ys) index x h = elim (find_index-cases (has_id id) y ys index x h) [
  | inl (_, same, test) ↦ ap (λ w. w.id) same ∙ id_of (string_discrete y.id id) test
  | inr (j, _, found) ↦ find_index-id id ys j x found
]
  where
    id_of : {s t : String} (d : Dec (s ≡ t)) → holds d ≡ true → s ≡ t
    id_of (yes e) h = e
    id_of (no n) h = cc

same_id : (x y : PaymentIntent) → IsSameObject x y → y.id ≡ x.id
same_id x y (inl e) = ap (λ w. w.id) e
same_id x y (inr e) = ap (λ w. w.id) e

pub same_status :
    (x y : PaymentIntent) → IsSameObject x y → x.status ≡ succeeded → y.status ≡ succeeded
same_status x y (inl e) s = ap (λ w. w.status) e ∙ s
same_status x y (inr e) s = ap (λ w. w.status) e

abbrev found_at : ℕ → PaymentIntent → Option (ℕ × PaymentIntent)
found_at index x = some (index, x)

pub not_head :
    (index j : ℕ) (first x : PaymentIntent)
    → index ≡ suc j
    → found_at 0 first ≡ found_at index x
    → ⊥
not_head index j first x later e = ground arith

pub find_index-here :
    (test : PaymentIntent → Bool) (x : PaymentIntent) (xs : List PaymentIntent)
    → test x ≡ true
    → find_index test (x ∷ xs) ≡ some (0, x)
find_index-here test x xs t = rw t refl

pub find_index-later :
    (test : PaymentIntent → Bool) (x y : PaymentIntent) (xs : List PaymentIntent) (index : ℕ)
    → test x ≡ false
    → find_index test xs ≡ some (index, y)
    → find_index test (x ∷ xs) ≡ some (suc index, y)
find_index-later test x y xs index f h = rw (f, h) refl

-- What was found is found at the same place later, the same object or its confirmation.
pub find_index-Progresses :
    (id : String) (xs ys : List PaymentIntent) (index : ℕ) (x : PaymentIntent)
    → Progresses xs ys
    → find_index (has_id id) xs ≡ some (index, x)
    → (y : PaymentIntent) × (find_index (has_id id) ys ≡ some (index, y)) × IsSameObject x y
find_index-Progresses id [] ys index x p h = cc
find_index-Progresses id (first ∷ xs) [] index x p h = elim p [ ]
find_index-Progresses id (first ∷ xs) (y ∷ ys) index x p h =
    let same : has_id id y ≡ has_id id first =
      ap (λ s. holds (string_discrete s id)) (same_id first y p.0) in
    elim (find_index-cases (has_id id) first xs index x h) [
      | inl (at_head, found, test) ↦ (
        y,
        subst (λ i. find_index (has_id id) (y ∷ ys) ≡ some (i, y)) (sym at_head)
            (find_index-here (has_id id) y ys (same ∙ test)),
        subst (λ z. IsSameObject z y) (sym found) p.0,
      )
      | inr (j, later, found) ↦
          let (z, there, object) = find_index-Progresses id xs ys j x p.1 found in
          elim (Bool-cases (has_id id first)) [
            | inl t ↦ absurd (not_head index j first x later (rw t at h))
            | inr f ↦ (
              z,
              subst (λ i. find_index (has_id id) (y ∷ ys) ≡ some (i, z)) (sym later)
                  (find_index-later (has_id id) y z ys j (same ∙ f) there),
              object,
            )
          ]
    ]

pub find_index-set_elem :
    (id : String) (xs : List PaymentIntent) (index : ℕ) (x : PaymentIntent)
    → find_index (has_id id) xs ≡ some (index, x)
    → find_index (has_id id) (set_elem xs index (confirmed x)) ≡ some (index, confirmed x)
find_index-set_elem id [] index x h = cc
find_index-set_elem id (y ∷ ys) index x h = elim (find_index-cases (has_id id) y ys index x h) [
  | inl (at_head, same, test) ↦
      subst
        (λ i. find_index (has_id id) (set_elem (y ∷ ys) i (confirmed x)) ≡ some (i, confirmed x))
        (sym at_head) (find_index-here (has_id id) (confirmed x) ys (ap (has_id id) same ∙ test))
  | inr (j, later, found) ↦ elim (Bool-cases (has_id id y)) [
    | inl t ↦ absurd (not_head index j y x later (rw t at h))
    | inr f ↦
        subst
          (λ i. find_index (has_id id) (set_elem (y ∷ ys) i (confirmed x)) ≡ some (i, confirmed x))
          (sym later)
          (find_index-later (has_id id) y (confirmed x) (set_elem ys j (confirmed x)) j f
            (find_index-set_elem id ys j x found))
  ]
]
