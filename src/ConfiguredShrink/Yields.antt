-- ===== src/ConfiguredShrink/Yields.antt =====
-- crates/tiv-runtime/src/configured_shrink.rs: what the steps of an effect give.
use tx_proof.Common.{◌≡◌, refl, ap, subst, arith, Bool, true, false, not, Result, ok, err}
use tx_proof.ConfiguredShrink.Effects.{ConfiguredShrinkError, Effect, then_effect}
use tx_proof.ConfiguredShrink.Attempts.{fail_if}

-- What holds of the value that an effect gives, if it gives one.
abbrev pub Yields :
    {W F A : Type 0} → (A → Type 0) → Result (ConfiguredShrinkError F) A × W → Type 0
Yields P (ok a, w) = P a
Yields P (err e, w) = Unit

pub Yields-bind :
    {W F A B : Type 0} (P : B → Type 0) (x : Result (ConfiguredShrinkError F) A × W)
    (next : A → Effect W F B)
    → ((a : A) (w : W) → x ≡ (ok a, w) → Yields P (next a w))
    → Yields P (then_effect x next)
unfolding then_effect
Yields-bind P (ok a, w) next h = h a w refl
Yields-bind P (err e, w) next h = tt

pub Yields-ok :
    {W F A : Type 0} (P : A → Type 0) (x : Result (ConfiguredShrinkError F) A × W) (a : A) (w : W)
    → Yields P x
    → x ≡ (ok a, w)
    → P a
Yields-ok P (ok a', w') a w y h = subst P (ground arith) y
Yields-ok P (err e, w') a w y h = cc

pub Yields-imp :
    {W F A : Type 0} (P Q : A → Type 0)
    → ((a : A) → P a → Q a)
    → (x : Result (ConfiguredShrinkError F) A × W) → Yields P x
    → Yields Q x
Yields-imp P Q f (ok a, w) y = f a y
Yields-imp P Q f (err e, w) y = tt

-- What `give` gives.
pub given :
    {W F A : Type 0} (r r' : Result (ConfiguredShrinkError F) A) (w w' : W)
    → ◌≡◌ {A = Result (ConfiguredShrinkError F) A × W} (r, w) (r', w')
    → r ≡ r'
given r r' w w' h = ap (λ x. x.0) h

pub fail_if-ok :
    {F : Type 0} (test : Bool) (e : ConfiguredShrinkError F) (done : Unit)
    → fail_if (not test) e ≡ ok done
    → test ≡ true
fail_if-ok true e done h = refl
fail_if-ok false e done h = cc
