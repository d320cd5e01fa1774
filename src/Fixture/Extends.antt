-- ===== src/Fixture/Extends.antt =====
-- crates/tiv-stripe-pi/src/lib.rs: what no operation on a `PaymentIntentFixture` undoes.
use tx_proof.Common.{
  ℕ, ◌≡◌, refl, sym, ap, ◌∙◌, subst, Bool, some, List, [], ◌∷◌, ◌++◌, ◌⊎◌, inl, inr, find_index,
  set_elem, lookup, find_index-cases,
}
use tx_proof.Fixture.Types.{IdempotencyKey, PaymentIntent, succeeded, ProviderEvent, key_discrete}
use tx_proof.Fixture.Provider.{PaymentIntentFixture, IdempotencyEntry}

abbrev pub confirmed : PaymentIntent → PaymentIntent
confirmed payment_intent = record payment_intent { status = succeeded }

-- The same object, or the object with its confirmation
abbrev pub IsSameObject : PaymentIntent → PaymentIntent → Type 0
IsSameObject x y = (y ≡ x) ⊎ (y ≡ confirmed x)

-- The objects of the first list, in place, in the second
abbrev pub Progresses : List PaymentIntent → List PaymentIntent → Type 0
Progresses [] ys = Unit
Progresses (x ∷ xs) [] = ⊥
Progresses (x ∷ xs) (y ∷ ys) = IsSameObject x y × Progresses xs ys

-- What an operation may do: append objects, events and entries, and confirm objects.
pub record Extends (before after : PaymentIntentFixture) : Type 0 where
  pub seed : after.seed ≡ before.seed
  pub objects : Progresses before.payment_intents after.payment_intents
  pub events : (more : List ProviderEvent) × (after.events ≡ before.events ++ more)
  pub entries :
      (key : IdempotencyKey) (entry : IdempotencyEntry)
      → lookup key_discrete before.idempotency key ≡ some entry
      → lookup key_discrete after.idempotency key ≡ some entry

pub append_nil : (xs : List ProviderEvent) → xs ≡ xs ++ []
append_nil [] = refl
append_nil (x ∷ xs) = ap (λ ys. x ∷ ys) (append_nil xs)

append_assoc : (xs ys zs : List ProviderEvent) → (xs ++ ys) ++ zs ≡ xs ++ (ys ++ zs)
append_assoc [] ys zs = refl
append_assoc (x ∷ xs) ys zs = ap (λ us. x ∷ us) (append_assoc xs ys zs)

pub Progresses-refl : (xs : List PaymentIntent) → Progresses xs xs
Progresses-refl [] = tt
Progresses-refl (x ∷ xs) = (inl refl, Progresses-refl xs)

pub Progresses-append : (xs more : List PaymentIntent) → Progresses xs (xs ++ more)
Progresses-append [] more = tt
Progresses-append (x ∷ xs) more = (inl refl, Progresses-append xs more)

IsSameObject-trans :
    (x y z : PaymentIntent) → IsSameObject x y → IsSameObject y z → IsSameObject x z
IsSameObject-trans x y z (inl p) (inl q) = inl (q ∙ p)
IsSameObject-trans x y z (inl p) (inr q) = inr (q ∙ ap confirmed p)
IsSameObject-trans x y z (inr p) (inl q) = inr (q ∙ p)
IsSameObject-trans x y z (inr p) (inr q) = inr (q ∙ ap confirmed p)

Progresses-trans :
    (xs ys zs : List PaymentIntent) → Progresses xs ys → Progresses ys zs → Progresses xs zs
Progresses-trans [] ys zs p q = tt
Progresses-trans (x ∷ xs) [] zs p q = elim p [ ]
Progresses-trans (x ∷ xs) (y ∷ ys) [] p q = elim q [ ]
Progresses-trans (x ∷ xs) (y ∷ ys) (z ∷ zs) p q =
    (IsSameObject-trans x y z p.0 q.0, Progresses-trans xs ys zs p.1 q.1)

-- Confirming the object that a test finds
pub Progresses-set_elem :
    (test : PaymentIntent → Bool) (xs : List PaymentIntent) (i : ℕ) (x : PaymentIntent)
    → find_index test xs ≡ some (i, x)
    → Progresses xs (set_elem xs i (confirmed x))
Progresses-set_elem test [] i x h = tt
Progresses-set_elem test (y ∷ ys) i x h = elim (find_index-cases test y ys i x h) [
  | inl (at_head, same, _) ↦
      subst (λ j. Progresses (y ∷ ys) (set_elem (y ∷ ys) j (confirmed x))) (sym at_head)
        (inr (ap confirmed same), Progresses-refl ys)
  | inr (j, later, found) ↦
      subst (λ k. Progresses (y ∷ ys) (set_elem (y ∷ ys) k (confirmed x))) (sym later)
        (inl refl, Progresses-set_elem test ys j x found)
]

pub Extends-refl : (fixture : PaymentIntentFixture) → Extends fixture fixture
Extends-refl fixture = record {
  seed = refl;
  objects = Progresses-refl fixture.payment_intents;
  events = ([], append_nil fixture.events);
  entries = λ key entry h. h;
}

pub Extends-trans : (f g h : PaymentIntentFixture) → Extends f g → Extends g h → Extends f h
Extends-trans f g h p q = record {
  seed = q.seed ∙ p.seed;
  objects =
      Progresses-trans f.payment_intents g.payment_intents h.payment_intents p.objects q.objects;
  events = (
    p.events.0 ++ q.events.0,
    q.events.1
        ∙ ap (λ es. es ++ q.events.0) p.events.1
        ∙ append_assoc f.events p.events.0 q.events.0,
  );
  entries = λ key entry e. q.entries key entry (p.entries key entry e);
}
