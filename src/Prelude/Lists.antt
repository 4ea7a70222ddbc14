-- ===== src/Prelude/Lists.antt =====
-- Lists measured and cut by native numbers, under the library's names.
use Prim.Native.Nat.{ℕ, zero, suc, ◌+◌, ◌-◌, ◌<◌, min}
use mathlib.Core.Path.{◌≡◌, refl, ap, ◌∙◌}
use mathlib.Core.Logic.{◌⊎◌, inl, inr}
use mathlib.Core.Bool.{Bool, true, false, ◌&&◌, ◌||◌}
use mathlib.Core.List.{List, [], ◌∷◌, ◌++◌, append_assoc, Memᴰ}
use mathlib.Core.Option.{Option, none, some, some-injective}
use docta.Prelude.Tests.{Bool-cases}
use native.Mathlib.Omega.{arith}

module _ {ℓ} {A : Type ℓ} where
  abbrev pub length : List A → ℕ
  length [] = 0
  length (x ∷ xs) = suc (length xs)

  abbrev pub get_elem? : List A → ℕ → Option A
  get_elem? [] i = none
  get_elem? (x ∷ xs) zero = some x
  get_elem? (x ∷ xs) (suc i) = get_elem? xs i

  abbrev pub take : ℕ → List A → List A
  take zero xs = []
  take (suc n) [] = []
  take (suc n) (x ∷ xs) = x ∷ take n xs

  abbrev pub drop : ℕ → List A → List A
  drop zero xs = xs
  drop (suc n) [] = []
  drop (suc n) (x ∷ xs) = drop n xs

  -- `not xs`
  abbrev pub is_empty : List A → Bool
  is_empty [] = true
  is_empty (x ∷ xs) = false

  abbrev pub any : (A → Bool) → List A → Bool
  any p [] = false
  any p (x ∷ xs) = p x || any p xs

  abbrev pub all : (A → Bool) → List A → Bool
  all p [] = true
  all p (x ∷ xs) = p x && all p xs

  -- P holds of every element.
  abbrev pub All {κ} : (A → Type κ) → List A → Type κ
  All P [] = Unit
  All P (x ∷ xs) = P x × All P xs

module _ {ℓ} {A : Type ℓ} where
  pub nil_of_is_empty : (xs : List A) → is_empty xs ≡ true → xs ≡ []
  nil_of_is_empty [] h = refl
  nil_of_is_empty (x ∷ xs) h = cc

  pub length-append : (xs ys : List A) → length (xs ++ ys) ≡ length xs + length ys
  length-append [] ys = omega arith
  length-append (x ∷ xs) ys = omega (arith, length-append xs ys)

  pub length-take : (n : ℕ) (xs : List A) → length (take n xs) ≡ min n (length xs)
  length-take zero xs = omega arith
  length-take (suc n) [] = omega arith
  length-take (suc n) (x ∷ xs) = omega (arith, length-take n xs)

  pub length-drop : (n : ℕ) (xs : List A) → length (drop n xs) ≡ length xs - n
  length-drop zero xs = omega arith
  length-drop (suc n) [] = omega arith
  length-drop (suc n) (x ∷ xs) = omega (arith, length-drop n xs)

  pub All-append {κ} : (P : A → Type κ) (xs ys : List A) → All P xs → All P ys → All P (xs ++ ys)
  All-append P [] ys h k = k
  All-append P (x ∷ xs) ys h k = (h.0, All-append P xs ys h.1 k)

  pub All-weaken {κ μ} :
      (P : A → Type κ) (Q : A → Type μ)
      → ((a : A) → P a → Q a)
      → (xs : List A) → All P xs
      → All Q xs
  All-weaken P Q f [] h = tt
  All-weaken P Q f (x ∷ xs) h = (f x h.0, All-weaken P Q f xs h.1)

  pub take-append-drop : (n : ℕ) (xs : List A) → take n xs ++ drop n xs ≡ xs
  take-append-drop zero xs = refl
  take-append-drop (suc n) [] = refl
  take-append-drop (suc n) (x ∷ xs) = ap (λ r. x ∷ r) (take-append-drop n xs)

  pub append_nest : (a b c d e : List A) → a ++ ((b ++ (c ++ d)) ++ e) ≡ (a ++ b) ++ (c ++ (d ++ e))
  append_nest a b c d e = simp append_assoc

module _ {ℓ} {A : Type ℓ} where
  pub mem_left : {a : A} (xs ys : List A) → Memᴰ a xs → Memᴰ a (xs ++ ys)
  mem_left [] ys m = elim m [ ]
  mem_left (x ∷ xs) ys (Memᴰ.head e) = Memᴰ.head e
  mem_left (x ∷ xs) ys (Memᴰ.tail m) = Memᴰ.tail (mem_left xs ys m)

  pub mem_right : {a : A} (xs ys : List A) → Memᴰ a ys → Memᴰ a (xs ++ ys)
  mem_right [] ys m = m
  mem_right (x ∷ xs) ys m = Memᴰ.tail (mem_right xs ys m)

  -- An element of a list with one more at the end is an old one, or the last.
  pub get_elem?-snoc :
      (xs : List A) (y : A) (i : ℕ) (a : A)
      → get_elem? (xs ++ y ∷ []) i ≡ some a
      → (get_elem? xs i ≡ some a) ⊎ ((i ≡ length xs) × (y ≡ a))
  get_elem?-snoc [] y zero a h = inr (refl, some-injective y a h)
  get_elem?-snoc [] y (suc i) a h = cc
  get_elem?-snoc (x ∷ xs) y zero a h = inl h
  get_elem?-snoc (x ∷ xs) y (suc i) a h = elim (get_elem?-snoc xs y i a h) [
    | inl old ↦ inl old
    | inr last ↦ inr (ap suc last.0, last.1)
  ]

  -- A list that fails a test has an element that fails it.
  pub not_all :
      (p : A → Bool) (xs : List A)
      → all p xs ≡ false
      → (i : ℕ) × (a : A) × (get_elem? xs i ≡ some a) × (p a ≡ false)
  not_all p [] h = cc
  not_all p (x ∷ xs) h = elim (Bool-cases (p x)) [
    | inl e ↦ let (i, a, at, n) = not_all p xs (ground arith) in (suc i, a, at, n)
    | inr e ↦ (0, x, refl, e)
  ]

  pub all-take : (p : A → Bool) (n : ℕ) (xs : List A) → all p xs ≡ true → all p (take n xs) ≡ true
  all-take p zero xs h = refl
  all-take p (suc n) [] h = refl
  all-take p (suc n) (x ∷ xs) h = ground (arith, all-take p n xs)

  pub all-drop : (p : A → Bool) (n : ℕ) (xs : List A) → all p xs ≡ true → all p (drop n xs) ≡ true
  all-drop p zero xs h = h
  all-drop p (suc n) [] h = refl
  all-drop p (suc n) (x ∷ xs) h = all-drop p n xs (ground arith)

  pub get_elem?-take-drop :
      (xs : List A) (s n k : ℕ) → k < n → get_elem? (take n (drop s xs)) k ≡ get_elem? xs (s + k)
  get_elem?-take-drop [] zero zero k h = absurd (omega arith)
  get_elem?-take-drop [] zero (suc n) k h = refl
  get_elem?-take-drop [] (suc s) zero k h = absurd (omega arith)
  get_elem?-take-drop [] (suc s) (suc n) k h = refl
  get_elem?-take-drop (x ∷ xs) zero zero k h = absurd (omega arith)
  get_elem?-take-drop (x ∷ xs) zero (suc n) zero h = refl
  get_elem?-take-drop (x ∷ xs) zero (suc n) (suc k) h =
      get_elem?-take-drop xs zero n k (omega arith)
      ∙ ap (get_elem? (x ∷ xs)) {x = suc (0 + k)} (omega arith)
  get_elem?-take-drop (x ∷ xs) (suc s) n k h =
      get_elem?-take-drop xs s n k h ∙ ap (get_elem? (x ∷ xs)) {x = suc (s + k)} (omega arith)

  pub All_of_mem {κ} : (P : A → Type κ) (xs : List A) → ((a : A) → Memᴰ a xs → P a) → All P xs
  All_of_mem P [] f = tt
  All_of_mem P (x ∷ xs) f = (f x (Memᴰ.head refl), All_of_mem P xs (λ a m. f a (Memᴰ.tail m)))

  pub not_mem_of_is_empty : {a : A} (xs : List A) → is_empty xs ≡ true → Memᴰ a xs → ⊥
  not_mem_of_is_empty [] h m = elim m [ ]
  not_mem_of_is_empty (x ∷ xs) h m = cc
