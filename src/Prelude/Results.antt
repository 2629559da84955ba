-- ===== src/Prelude/Results.antt =====
-- What may throw: a value or an error, with do blocks.
use mathlib.Core.Path.{◌≡◌, refl}
use mathlib.Core.Logic.{◌⊎◌, inl, inr}
use mathlib.Core.Bool.{Bool, true, false}
use mathlib.Core.Option.{Option, none, some}
use combine_trade.Prelude.Tests.{if◌then◌else◌}
use native.Mathlib.Omega.{arith}

pub data Result {ℓ κ} (E : Type ℓ) (A : Type κ) : Type (ℓ ⊔ κ) where
  ok : A → Result E A
  err : E → Result E A

-- `if (bad) throw e`.
abbrev pub throw_if {ℓ} : {E : Type ℓ} → Bool → E → Result E (Unit {0})
throw_if bad e = if bad then err e else ok tt

infixl 5 ◌>>=◌
abbrev pub ◌>>=◌ {ℓ κ ι} :
    {E : Type ℓ} {A : Type κ} {B : Type ι} → Result E A → (A → Result E B) → Result E B
err thrown >>= next = err thrown
ok value >>= next = next value

-- A statement whose value is not used.
infixl 5 ◌>>◌
abbrev pub ◌>>◌ {ℓ κ} : {E : Type ℓ} {B : Type κ} → Result E (Unit {0}) → Result E B → Result E B
first >> next = first >>= (λ done. next)

-- `if (!row) throw e`.
abbrev pub or_throw {ℓ κ} : {E : Type ℓ} {A : Type κ} → Option A → E → Result E A
or_throw none e = err e
or_throw (some a) e = ok a

-- A sequence that returned has passed its first step.
pub >>=-eq-ok {ℓ κ ι} :
    {E : Type ℓ} {A : Type κ} {B : Type ι} (first : Result E A) (next : A → Result E B) {out : B}
    → (first >>= next) ≡ ok out
    → (value : A) × (first ≡ ok value) × (next value ≡ ok out)
>>=-eq-ok (err thrown) next returned = cc
>>=-eq-ok (ok value) next returned = (value, refl, returned)

pub Result-cases {ℓ κ} :
    {E : Type ℓ} {A : Type κ} (r : Result E A) → ((a : A) × (r ≡ ok a)) ⊎ ((e : E) × (r ≡ err e))
Result-cases (ok a) = inl (a, refl)
Result-cases (err e) = inr (e, refl)

pub ok_injective : {E A : Type 0} {a b : A} → ◌≡◌ {A = Result E A} (ok a) (ok b) → a ≡ b
ok_injective h = cc

-- What a lookup and two guards have passed when they return.
pub guards-eq-ok :
    {E R A : Type 0} (found : Option R) (missing : E) (bad : R → Bool) (e : R → E) (taken : Bool)
    (e' : E) (k : R → Result E A) (a : A)
    → (or_throw found missing >>= λ r. throw_if (bad r) (e r) >> (throw_if taken e' >> k r)) ≡ ok a
    → (r : R) × (found ≡ some r) × (taken ≡ false) × (k r ≡ ok a)
guards-eq-ok none missing bad e taken e' k a h = cc
guards-eq-ok (some r) missing bad e taken e' k a h = (r, refl, ground arith, ground arith)

pub two_guards-eq-ok :
    {E A : Type 0} (b b' : Bool) (e e' : E) (v w : A)
    → (throw_if b e >> (throw_if b' e' >> ok v)) ≡ ok w
    → v ≡ w
two_guards-eq-ok true b' e e' v w h = cc
two_guards-eq-ok false true e e' v w h = cc
two_guards-eq-ok false false e e' v w h = ok_injective h

-- What a lookup, a guard and a computation have passed when they return.
pub lookup-eq-ok :
    {E R A : Type 0} (found : Option R) (missing : E) (k : R → Result E A) (a : A)
    → (or_throw found missing >>= k) ≡ ok a
    → (r : R) × (found ≡ some r) × (k r ≡ ok a)
lookup-eq-ok none missing k a h = cc
lookup-eq-ok (some r) missing k a h = (r, refl, h)
