-- ===== src/Prelude/Results.antt =====
-- Code that may raise: a value, or the exception with its payload.
use mathlib.Core.Path.{◌≡◌, refl}
use mathlib.Core.Bool.{Bool, true, false}
use mathlib.Core.Option.{Option, none, some}
use mathlib.Core.Logic.{◌⊎◌, inl, inr}

pub data Result {ℓ} (E A : Type ℓ) : Type ℓ where
  -- an exception that is raised
  err : E → Result E A
  ok : A → Result E A

infixl 5 ◌>>◌ ◌>>=◌
-- The statements after `m` run on its value, unless it raises.
abbrev pub ◌>>=◌ {ℓ} : {E A B : Type ℓ} → Result E A → (A → Result E B) → Result E B
err raised >>= rest = err raised
ok value >>= rest = rest value

abbrev pub ◌>>◌ : {E B : Type 0} → Result E Unit → Result E B → Result E B
step >> rest = step >>= (λ done. rest)

-- `if test: raise e`
abbrev pub raise_if : {E : Type 0} → Bool → E → Result E Unit
raise_if true e = err e
raise_if false e = ok tt

-- `if value is None: raise e`
abbrev pub or_raise {ℓ} : {E A : Type ℓ} → Option A → E → Result E A
or_raise none e = err e
or_raise (some a) e = ok a

-- A chain returns only if its first step does.
pub >>=-eq-ok {ℓ} :
    {E A B : Type ℓ} (step : Result E A) (rest : A → Result E B) {b : B}
    → (step >>= rest) ≡ ok b
    → (a : A) × (step ≡ ok a) × (rest a ≡ ok b)
>>=-eq-ok (err raised) rest h = cc
>>=-eq-ok (ok value) rest h = (value, refl, h)

-- A guard lets pass only if its test fails.
pub raise_if->>-ok :
    {E B : Type 0} (t : Bool) (e : E) (k : Result E B) {b : B}
    → (raise_if t e >> k) ≡ ok b
    → (t ≡ false) × (k ≡ ok b)
raise_if->>-ok true e k h = cc
raise_if->>-ok false e k h = (refl, h)

pub or_raise-ok {ℓ} :
    {E A : Type ℓ} (o : Option A) (e : E) {a : A} → or_raise o e ≡ ok a → o ≡ some a
or_raise-ok none e h = cc
or_raise-ok (some a) e h = cc

pub Result-cases {ℓ} :
    {E A : Type ℓ} (x : Result E A) → ((e : E) × (x ≡ err e)) ⊎ ((a : A) × (x ≡ ok a))
Result-cases (err e) = inl (e, refl)
Result-cases (ok a) = inr (a, refl)
