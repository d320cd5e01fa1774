-- ===== src/Fixture/Consistent.antt =====
-- crates/tiv-stripe-pi/src/lib.rs: the well-formedness of a `PaymentIntentFixture`.
use tx_proof.Common.{
  ℕ, ◌≡◌, refl, sym, ap, ap₂, ◌∙◌, subst, arith, Bool, false, ◌&&◌, some, List, [], ◌∷◌, ◌++◌, any,
  String, string_discrete, holds, Bool-cases, inl, inr, ◌⊎◌, find_index, set_elem, All,
  find_index-cases,
}
use tx_proof.Fixture.Types.{
  PaymentIntent, succeeded, payment_intent_succeeded, ProviderEvent, kind_discrete,
}
use tx_proof.Fixture.Provider.{PaymentIntentFixture, has_id, is_event_of}
use tx_proof.Fixture.Extends.{confirmed, Progresses}

-- The object of an event is there, and confirmed if the event says so.
abbrev pub IsBacked : List PaymentIntent → ProviderEvent → Type 0
IsBacked [] event = ⊥
IsBacked (x ∷ xs) event =
    ((x.id ≡ event.payment_intent_id)
      × (event.kind ≡ payment_intent_succeeded → x.status ≡ succeeded))
    ⊎ IsBacked xs event

-- No two events have both their object and their kind in common.
abbrev pub AreDistinct : List ProviderEvent → Type 0
AreDistinct [] = Unit
AreDistinct (event ∷ events) =
    (any (is_event_of event.payment_intent_id event.kind) events ≡ false) × AreDistinct events

pub record IsConsistent (fixture : PaymentIntentFixture) : Type 0 where
  pub distinct : AreDistinct fixture.events
  pub backed : All (IsBacked fixture.payment_intents) fixture.events

IsBacked-Progresses :
    (xs ys : List PaymentIntent) (event : ProviderEvent)
    → Progresses xs ys
    → IsBacked xs event
    → IsBacked ys event
IsBacked-Progresses [] ys event p b = elim b [ ]
IsBacked-Progresses (x ∷ xs) [] event p b = elim p [ ]
IsBacked-Progresses (x ∷ xs) (y ∷ ys) event p (inr b) = inr (IsBacked-Progresses xs ys event p.1 b)
IsBacked-Progresses (x ∷ xs) (y ∷ ys) event (inl e, p) (inl b) =
    inl (ap (λ w. w.id) e ∙ b.0, λ s. ap (λ w. w.status) e ∙ b.1 s)
IsBacked-Progresses (x ∷ xs) (y ∷ ys) event (inr e, p) (inl b) =
    inl (ap (λ w. w.id) e ∙ b.0, λ s. ap (λ w. w.status) e)

pub AreBacked-Progresses :
    (xs ys : List PaymentIntent) (events : List ProviderEvent)
    → Progresses xs ys
    → All (IsBacked xs) events
    → All (IsBacked ys) events
AreBacked-Progresses xs ys [] p b = tt
AreBacked-Progresses xs ys (event ∷ events) p b =
    (IsBacked-Progresses xs ys event p b.0, AreBacked-Progresses xs ys events p b.1)

holds_comm : {A : Type 0} (same : Discrete A) (a b : A) → holds (same a b) ≡ holds (same b a)
holds_comm same a b = elim (same a b) [
  | yes e ↦ elim (same b a) [ yes e' ↦ ground arith | no n ↦ absurd (n (sym e)) ]
  | no n ↦ elim (same b a) [ yes e ↦ absurd (n (sym e)) | no m ↦ ground arith ]
]

-- Being an event of an object and a kind is symmetric.
is_event_of_comm :
    (a b : ProviderEvent)
    → is_event_of a.payment_intent_id a.kind b ≡ is_event_of b.payment_intent_id b.kind a
is_event_of_comm a b =
    ap₂ (λ x y. x && y) (holds_comm string_discrete b.payment_intent_id a.payment_intent_id)
      (holds_comm kind_discrete b.kind a.kind)

any-append_one :
    (test : ProviderEvent → Bool) (events : List ProviderEvent) (event : ProviderEvent)
    → any test events ≡ false
    → test event ≡ false
    → any test (events ++ event ∷ []) ≡ false
any-append_one test [] event h e = rw e refl
any-append_one test (first ∷ events) event h e = elim (Bool-cases (test first)) [
  | inl t ↦ ground arith
  | inr f ↦ ground (arith, any-append_one test events event)
]

pub AreDistinct-append :
    (events : List ProviderEvent) (event : ProviderEvent)
    → AreDistinct events
    → any (is_event_of event.payment_intent_id event.kind) events ≡ false
    → AreDistinct (events ++ event ∷ [])
AreDistinct-append [] event d absent = (refl, tt)
AreDistinct-append (first ∷ events) event d absent =
    let (other, rest) =
      any_false (is_event_of event.payment_intent_id event.kind) first events absent in
    (
      any-append_one (is_event_of first.payment_intent_id first.kind) events event d.0
          (is_event_of_comm first event ∙ other),
      AreDistinct-append events event d.1 rest,
    )
  where
    any_false :
        (test : ProviderEvent → Bool) (first : ProviderEvent) (events : List ProviderEvent)
        → any test (first ∷ events) ≡ false
        → (test first ≡ false) × (any test events ≡ false)
    any_false test first events h = elim (Bool-cases (test first)) [
      | inl t ↦ ground arith
      | inr f ↦ ground arith
    ]

pub IsBacked-find_index :
    (id : String) (xs : List PaymentIntent) (index : ℕ) (x : PaymentIntent) (event : ProviderEvent)
    → find_index (has_id id) xs ≡ some (index, x)
    → event.payment_intent_id ≡ x.id
    → (event.kind ≡ payment_intent_succeeded → x.status ≡ succeeded)
    → IsBacked xs event
IsBacked-find_index id [] index x event h same kind = cc
IsBacked-find_index id (y ∷ ys) index x event h same kind =
    elim (find_index-cases (has_id id) y ys index x h) [
      | inl (at_head, found, _) ↦
          inl (ap (λ w. w.id) (sym found) ∙ sym same, λ s. ap (λ w. w.status) (sym found) ∙ kind s)
      | inr (j, later, found) ↦ inr (IsBacked-find_index id ys j x event found same kind)
    ]

-- The confirmed object backs every event of it.
pub IsBacked-set_elem :
    (id : String) (xs : List PaymentIntent) (index : ℕ) (x : PaymentIntent) (event : ProviderEvent)
    → find_index (has_id id) xs ≡ some (index, x)
    → event.payment_intent_id ≡ x.id
    → IsBacked (set_elem xs index (confirmed x)) event
IsBacked-set_elem id [] index x event h same = cc
IsBacked-set_elem id (y ∷ ys) index x event h same =
    elim (find_index-cases (has_id id) y ys index x h) [
      | inl (at_head, found, _) ↦
          subst (λ i. IsBacked (set_elem (y ∷ ys) i (confirmed x)) event) (sym at_head)
            (inl (sym same, λ s. refl))
      | inr (j, later, found) ↦
          subst (λ i. IsBacked (set_elem (y ∷ ys) i (confirmed x)) event) (sym later)
            (inr (IsBacked-set_elem id ys j x event found same))
    ]
