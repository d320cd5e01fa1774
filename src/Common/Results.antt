-- ===== src/Common/Results.antt =====
-- `Result<A, E>` with the operator `?` and `ok_or`, and the chains of `Option`.
use mathlib.Core.Path.{◌≡◌, refl}
use mathlib.Core.Logic.{◌⊎◌, inl, inr}
use mathlib.Core.Bool.{Bool, true, false}
use mathlib.Core.Option.{Option, none, some}

pub data Result (E A : Type 0) : Type 0 where
  ok : A → Result E A
  err : E → Result E A

infixl 5 ◌>>=◌
infixl 5 ◌>>◌
-- The operator `?`: an error leaves the chain at once.
abbrev pub ◌>>=◌ : {E A B : Type 0} (result : Result E A) (next : A → Result E B) → Result E B
err error >>= next = err error
ok value >>= next = next value

abbrev pub ◌>>◌ : {E B : Type 0} (checked : Result E Unit) (next : Result E B) → Result E B
checked >> next = checked >>= λ passed. next

-- `if test { return Err(e) }`
abbrev pub reject_if : {E : Type 0} → Bool → E → Result E Unit
reject_if false error = ok tt
reject_if true error = err error

abbrev pub ok_or : {E A : Type 0} → Option A → E → Result E A
ok_or none e = err e
ok_or (some a) e = ok a

abbrev pub map_err : {E F A : Type 0} → (E → F) → Result E A → Result F A
map_err f (ok a) = ok a
map_err f (err e) = err (f e)

abbrev pub is_ok : {E A : Type 0} → Result E A → Bool
is_ok (ok a) = true
is_ok (err e) = false

pub Result-cases :
    {E A : Type 0} (r : Result E A) → ((a : A) × (r ≡ ok a)) ⊎ ((e : E) × (r ≡ err e))
Result-cases (ok a) = inl (a, refl)
Result-cases (err e) = inr (e, refl)
