-- ===== src/Prelude/Equality.antt =====
-- Python's `==` as an interface: a Boolean test that decides equality.
use Prim.Native.Nat.{ℕ}
use Prim.Native.String.{String}
use mathlib.Core.Path.{◌≡◌, refl, ap}
use mathlib.Core.Logic.{◌↔◌}
use mathlib.Core.Bool.{Bool, true, false, ◌&&◌, ◌||◌, not}
use mathlib.Core.List.{List, [], ◌∷◌}
use mathlib.Core.Option.{Option, none, some}
use native.Mathlib.Omega.{arith}
use text.Mathlib.Text.{◌==◌ as text_beq}
use text.Mathlib.TextEquality.{eq_iff as text_beq_iff}
use docta.Prelude.Tests.{nat_beq}

pub nat_beq_iff : (m n : ℕ) → (nat_beq m n ≡ true) ↔ (m ≡ n)
nat_beq_iff m n = ground arith

-- A type that has `__eq__`.
pub record Eq {ℓ} (K : Type ℓ) : Type ℓ where
  pub same : K → K → Bool
  pub same_iff : (x y : K) → (same x y ≡ true) ↔ (x ≡ y)

infix 50 ◌!=◌ ◌==◌
abbrev pub ◌==◌ {ℓ} : {K : Type ℓ} ⦃k : Eq K⦄ → K → K → Bool
◌==◌ ⦃k⦄ x y = k.same x y

abbrev pub ◌!=◌ {ℓ} : {K : Type ℓ} ⦃k : Eq K⦄ → K → K → Bool
x != y = not (x == y)

instance abbrev pub string_eq : Eq String
string_eq = record { same = text_beq; same_iff = text_beq_iff }

instance abbrev pub nat_eq : Eq ℕ
nat_eq = record { same = nat_beq; same_iff = nat_beq_iff }

module _ {ℓ} {A : Type ℓ} ⦃e : Eq A⦄ where
  abbrev pub option_beq : Option A → Option A → Bool
  option_beq none none = true
  option_beq (some a) (some b) = a == b
  option_beq _ _ = false

  pub option_beq_iff : (a b : Option A) → (option_beq a b ≡ true) ↔ (a ≡ b)
  option_beq_iff none none = (λ _. refl, λ _. refl)
  option_beq_iff none (some b) = (λ h. cc, λ h. cc)
  option_beq_iff (some a) none = (λ h. cc, λ h. cc)
  option_beq_iff (some a) (some b) =
      (λ h. ap some ((e.same_iff a b).0 h), λ h. (e.same_iff a b).1 (cc))

  instance abbrev pub option_eq : Eq (Option A)
  option_eq = record { same = option_beq; same_iff = option_beq_iff }

  abbrev pub list_beq : List A → List A → Bool
  list_beq [] [] = true
  list_beq (x ∷ xs) (y ∷ ys) = x == y && list_beq xs ys
  list_beq _ _ = false

  pub list_beq_iff : (a b : List A) → (list_beq a b ≡ true) ↔ (a ≡ b)
  list_beq_iff [] [] = (λ _. refl, λ _. refl)
  list_beq_iff [] (y ∷ ys) = (λ h. cc, λ h. cc)
  list_beq_iff (x ∷ xs) [] = (λ h. cc, λ h. cc)
  list_beq_iff (x ∷ xs) (y ∷ ys) = ground (arith, e.same_iff x y, list_beq_iff xs ys)

  instance abbrev pub list_eq : Eq (List A)
  list_eq = record { same = list_beq; same_iff = list_beq_iff }

  -- `a in xs`
  abbrev pub contains : (items : List A) (wanted : A) → Bool
  contains (item ∷ items) wanted = wanted == item || contains items wanted
  contains [] wanted = false

  -- `len(set(xs)) == len(xs)`
  abbrev pub distinct : List A → Bool
  distinct [] = true
  distinct (x ∷ xs) = not (contains xs x) && distinct xs

  pub eq_self : (a : A) → (a == a) ≡ true
  eq_self a = (e.same_iff a a).1 refl
