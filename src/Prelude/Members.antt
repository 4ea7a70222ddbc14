-- ===== src/Prelude/Members.antt =====
-- The members of a table after an UPDATE or an INSERT.
use mathlib.Core.Path.{◌≡◌, refl, sym}
use mathlib.Core.Path.{subst}
use mathlib.Core.Bool.{Bool, true}
use mathlib.Core.List.{List, [], ◌∷◌, ◌++◌, Memᴰ}
use mathlib.Core.Option.{none, some}
use mathlib.Core.Logic.{◌≢◌, ◌⊎◌, inl, inr}
use native.Mathlib.Omega.{arith}
use docta.Prelude.Tests.{if◌then◌else◌, Bool-cases}
use docta.Prelude.Lists.{any}
use docta.Prelude.Rows.{find, update_where, count_where}

module _ {ℓ} {A : Type ℓ} where
  pub mem-update_where :
      (p : A → Bool) (f : A → A) (xs : List A) {y : A}
      → Memᴰ y (update_where p f xs)
      → (x : A) × Memᴰ x xs × (y ≡ (if p x then f x else x))
  mem-update_where p f [] m = elim m [ ]
  mem-update_where p f (x ∷ xs) (Memᴰ.head e) = (x, Memᴰ.head refl, e)
  mem-update_where p f (x ∷ xs) (Memᴰ.tail m) =
      let (z, there, e) = mem-update_where p f xs m in (z, Memᴰ.tail there, e)

  pub update_where-mem :
      (p : A → Bool) (f : A → A) (xs : List A) {x : A}
      → Memᴰ x xs
      → Memᴰ (if p x then f x else x) (update_where p f xs)
  update_where-mem p f [] m = elim m [ ]
  update_where-mem p f (z ∷ xs) {x} (Memᴰ.head e) = Memᴰ.head (rw e refl)
  update_where-mem p f (z ∷ xs) (Memᴰ.tail m) = Memᴰ.tail (update_where-mem p f xs m)

  pub find-mem : (p : A → Bool) (xs : List A) {a : A} → find p xs ≡ some a → Memᴰ a xs
  find-mem p [] h = cc
  find-mem p (x ∷ xs) {a} h = elim (Bool-cases (p x)) [
    | inl e ↦ let same : x ≡ a = ground arith in Memᴰ.head (sym same)
    | inr e ↦ Memᴰ.tail (find-mem p xs (rw e at h))
  ]

  pub mem-append : (xs ys : List A) {a : A} → Memᴰ a (xs ++ ys) → Memᴰ a xs ⊎ Memᴰ a ys
  mem-append [] ys m = inr m
  mem-append (x ∷ xs) ys (Memᴰ.head e) = inl (Memᴰ.head e)
  mem-append (x ∷ xs) ys (Memᴰ.tail m) = elim (mem-append xs ys m) [
    | inl here ↦ inl (Memᴰ.tail here)
    | inr there ↦ inr there
  ]

  -- What a row of a table gives a search: some row is found.
  pub mem-find :
      (p : A → Bool) (xs : List A) {a : A} → Memᴰ a xs → p a ≡ true → (b : A) × (find p xs ≡ some b)
  mem-find p [] m h = elim m [ ]
  mem-find p (x ∷ xs) {a} (Memᴰ.head e) h = (x, rw (subst (λ z. p z ≡ true) e h) refl)
  mem-find p (x ∷ xs) (Memᴰ.tail m) h = elim (Bool-cases (p x)) [
    | inl e ↦ (x, rw e refl)
    | inr e ↦ let (b, found) = mem-find p xs m h in (b, rw e found)
  ]

  -- An UPDATE that leaves a search's test alone changes the row that it finds, or not.
  pub find-update_where :
      (q p : A → Bool) (f : A → A) (xs : List A) {a : A}
      → ((x : A) → q (f x) ≡ q x)
      → find q xs ≡ some a
      → find q (update_where p f xs) ≡ some (if p a then f a else a)
  find-update_where q p f [] h e = cc
  find-update_where q p f (x ∷ xs) {a} h e =
      ground (arith, h x, find-update_where q p f xs {a = a} h)

  pub find-append :
      (q : A → Bool) (xs ys : List A) {a : A} → find q xs ≡ some a → find q (xs ++ ys) ≡ some a
  find-append q [] ys e = cc
  find-append q (x ∷ xs) ys {a} e = ground (arith, find-append q xs ys {a = a})

  pub count_where-update_where :
      (q p : A → Bool) (f : A → A) (xs : List A)
      → ((x : A) → q (f x) ≡ q x)
      → count_where q (update_where p f xs) ≡ count_where q xs
  count_where-update_where q p f [] h = refl
  count_where-update_where q p f (x ∷ xs) h =
      ground (arith, h x, count_where-update_where q p f xs h)

  count_where-none : (p : A → Bool) (xs : List A) → count_where p xs ≡ 0 → find p xs ≡ none
  count_where-none p [] h = refl
  count_where-none p (x ∷ xs) h = ground (arith, count_where-none p xs)

  -- What is in a table once is found.
  pub count_where-one :
      (p : A → Bool) (xs : List A) → count_where p xs ≡ 1 → (a : A) × (find p xs ≡ some a)
  count_where-one p [] h = cc
  count_where-one p (x ∷ xs) h = elim (Bool-cases (p x)) [
    | inl e ↦ (x, rw e refl)
    | inr e ↦ let (a, found) = count_where-one p xs (rw e at h) in (a, rw e found)
  ]

  find-weaken :
      (p q : A → Bool) (xs : List A) {a : A}
      → ((x : A) → q x ≡ true → p x ≡ true)
      → find p xs ≡ none
      → find q xs ≢ some a
  find-weaken p q [] {a} k h = λ e. cc
  find-weaken p q (x ∷ xs) {a} k h = ground (arith, k x, find-weaken p q xs {a = a} k)

  -- A row that a stricter test finds is the one row that the test finds.
  pub find-only :
      (p q : A → Bool) (xs : List A) {a : A}
      → ((x : A) → q x ≡ true → p x ≡ true)
      → count_where p xs ≡ 1
      → find q xs ≡ some a
      → find p xs ≡ some a
  find-only p q [] k h e = cc
  find-only p q (x ∷ xs) {a} k h e = elim (Bool-cases (p x)) [
    | inl here ↦
        let none_left : find p xs ≡ none = count_where-none p xs (ground arith) in
        let no_more = find-weaken p q xs {a = a} k none_left in ground arith
    | inr later ↦ ground (arith, k x, find-only p q xs {a = a} k)
  ]

  -- What passes a test in a table is one of its rows.
  pub any-mem : (p : A → Bool) (xs : List A) → any p xs ≡ true → (x : A) × Memᴰ x xs × (p x ≡ true)
  any-mem p [] h = cc
  any-mem p (x ∷ xs) h = elim (Bool-cases (p x)) [
    | inl e ↦ (x, Memᴰ.head refl, e)
    | inr e ↦ let (y, there, q) = any-mem p xs (rw e at h) in (y, Memᴰ.tail there, q)
  ]

  pub mem-any : (p : A → Bool) (xs : List A) {x : A} → Memᴰ x xs → p x ≡ true → any p xs ≡ true
  mem-any p [] m h = elim m [ ]
  mem-any p (y ∷ xs) {x} (Memᴰ.head e) h =
      let here : p y ≡ true = subst (λ z. p z ≡ true) e h in rw here refl
  mem-any p (y ∷ xs) (Memᴰ.tail m) h = let later = mem-any p xs m h in ground arith
