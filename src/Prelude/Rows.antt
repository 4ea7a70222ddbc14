-- ===== src/Prelude/Rows.antt =====
-- A table of the database is a list of rows: what the program's SELECT, UPDATE and INSERT do.
use Prim.Native.Nat.{ℕ, suc}
use mathlib.Core.Path.{◌≡◌, refl}
use mathlib.Core.Bool.{Bool, true}
use mathlib.Core.List.{List, [], ◌∷◌, ◌++◌}
use mathlib.Core.Option.{Option, none, some}
use native.Mathlib.Omega.{arith}
use mathlib.Core.Option
use mathlib.Core.Logic.{inl, inr}
use mathlib.Core.Path.{subst}
use docta.Prelude.Tests.{if◌then◌else◌, nat_beq, Bool-cases}
use docta.Prelude.Lists.{All}

module _ {ℓ} {A : Type ℓ} where
  -- SELECT … WHERE p LIMIT 1
  abbrev pub find : (A → Bool) → List A → Option A
  find p [] = none
  find p (x ∷ xs) = if p x then some x else find p xs

  -- SELECT … WHERE p
  abbrev pub filter : (A → Bool) → List A → List A
  filter p [] = []
  filter p (x ∷ xs) = let rest = filter p xs in if p x then x ∷ rest else rest

  -- UPDATE … SET f WHERE p
  abbrev pub update_where : (A → Bool) → (A → A) → List A → List A
  update_where p f [] = []
  update_where p f (x ∷ xs) = (if p x then f x else x) ∷ update_where p f xs

  -- the row count of an UPDATE, or a SELECT count(*)
  abbrev pub count_where : (A → Bool) → List A → ℕ
  count_where p [] = 0
  count_where p (x ∷ xs) = let rest = count_where p xs in if p x then suc rest else rest

module _ {ℓ} {A : Type ℓ} (le : A → A → Bool) where
  -- SELECT … ORDER BY, rows that tie in the table's order
  abbrev pub sort_insert : A → List A → List A
  sort_insert a [] = a ∷ []
  sort_insert a (x ∷ xs) = let later = sort_insert a xs in if le a x then a ∷ x ∷ xs else x ∷ later

  abbrev pub sort_by : List A → List A
  sort_by [] = []
  sort_by (x ∷ xs) = sort_insert x (sort_by xs)

module _ {ℓ} {A : Type ℓ} where
  pub find_holds : (p : A → Bool) (xs : List A) {a : A} → find p xs ≡ some a → p a ≡ true
  find_holds p [] h = cc
  find_holds p (x ∷ xs) {a} h = ground (arith, find_holds p xs {a = a})

-- Rows with a primary key.
module _ {ℓ} {A : Type ℓ} (key : A → ℕ) where
  abbrev pub find_by : ℕ → List A → Option A
  find_by k xs = find (λ x. nat_beq (key x) k) xs

  pub find_by-key : (k : ℕ) (xs : List A) {a : A} → find_by k xs ≡ some a → key a ≡ k
  find_by-key k [] h = cc
  find_by-key k (x ∷ xs) {a} h = ground (arith, find_by-key k xs {a = a})

  -- An UPDATE that leaves the key alone changes the row that a key finds, or not, by its test.
  pub find_by-update_where :
      (k : ℕ) (p : A → Bool) (f : A → A) (xs : List A)
      → ((x : A) → key (f x) ≡ key x)
      → find_by k (update_where p f xs) ≡ Option.map (λ x. if p x then f x else x) (find_by k xs)
  find_by-update_where k p f [] h = refl
  find_by-update_where k p f (x ∷ xs) h = ground (arith, h x, find_by-update_where k p f xs h)

  -- A row that is inserted behind the others is found if the key is new.
  pub find_by-append :
      (k : ℕ) (xs ys : List A)
      → find_by k (xs ++ ys) ≡ Option.get_or (Option.map some (find_by k xs)) (find_by k ys)
  find_by-append k [] ys = refl
  find_by-append k (x ∷ xs) ys = ground (arith, find_by-append k xs ys)

-- What holds of every row of a table.
module _ {ℓ κ} {A : Type ℓ} (P : A → Type κ) where
  pub All-find : (p : A → Bool) (xs : List A) {a : A} → find p xs ≡ some a → All P xs → P a
  All-find p [] e h = cc
  All-find p (x ∷ xs) {a} e h = elim (Bool-cases (p x)) [
    | inl yes_here ↦ let same : x ≡ a = ground arith in subst P same h.0
    | inr later ↦ All-find p xs (rw later at e) h.1
  ]

  pub All-update_where :
      (p : A → Bool) (f : A → A) (xs : List A)
      → ((x : A) → p x ≡ true → P x → P (f x))
      → All P xs
      → All P (update_where p f xs)
  All-update_where p f [] k h = tt
  All-update_where p f (x ∷ xs) k h = elim (Bool-cases (p x)) [
    | inl e ↦ rw e (k x e h.0, All-update_where p f xs k h.1)
    | inr e ↦ rw e (h.0, All-update_where p f xs k h.1)
  ]
