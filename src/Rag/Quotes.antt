-- ===== src/Rag/Quotes.antt =====
-- A quote that the validator lets through stands in the source, letter by letter.
use mathlib.Core.Path.{subst}
use docta.Prelude.{
  ℕ, zero, suc, ◌+◌, ◌-◌, ◌≤◌, ◌≡◌, refl, Bool, true, List, [], ◌∷◌, ok, length, take, drop, All,
  All-weaken, arith, Bool-cases, inl, inr, nat_beq, length-take, length-drop,
}
use docta.Text.{Text, slice, starts_as, occurs, match_starts}
use docta.Rag.Validator.{verbatim, only_match}

starts_as-take : (n : ℕ) (t : Text) → starts_as nat_beq (take n t) t ≡ true
unfolding starts_as
starts_as-take zero t = refl
starts_as-take (suc n) [] = refl
starts_as-take (suc n) (c ∷ t) = ground (arith, starts_as-take n t)

occurs-nil : (t : Text) → occurs [] t ≡ true
unfolding occurs starts_as
occurs-nil [] = refl
occurs-nil (c ∷ t) = refl

-- A slice of a text occurs in it.
pub occurs-slice : (a n : ℕ) (t : Text) → occurs (take n (drop a t)) t ≡ true
unfolding occurs starts_as
occurs-slice zero zero t = occurs-nil t
occurs-slice zero (suc n) [] = refl
occurs-slice zero (suc n) (c ∷ t) = ground (arith, starts_as-take n t)
occurs-slice (suc a) zero t = occurs-nil t
occurs-slice (suc a) (suc n) [] = refl
occurs-slice (suc a) (suc n) (c ∷ t) = ground (arith, occurs-slice a (suc n) t)

length-starts_as_le :
    (same : ℕ → ℕ → Bool) (q t : Text) → starts_as same q t ≡ true → length q ≤ length t
unfolding starts_as
length-starts_as_le same [] t h = omega arith
length-starts_as_le same (c ∷ q) [] h = cc
length-starts_as_le same (c ∷ q) (d ∷ t) h = ground (arith, length-starts_as_le same q t)

-- Each match lies within the text.
match_starts_within :
    (same : ℕ → ℕ → Bool) (q : Text) (wait at : ℕ) (t : Text)
    → All (λ s. s + length q ≤ at + length t) (match_starts same q wait at t)
unfolding match_starts
match_starts_within same q zero at [] = elim (Bool-cases (starts_as same q [])) [
  | inl e ↦ rw e (omega (arith, length-starts_as_le same q [] e), tt)
  | inr e ↦ rw e tt
]
match_starts_within same q (suc wait) at [] = tt
match_starts_within same q zero at (d ∷ t) = elim (Bool-cases (starts_as same q (d ∷ t))) [
  | inl e ↦ rw e (
    omega (arith, length-starts_as_le same q (d ∷ t) e),
    All-weaken _ _ (λ s (h : s + length q ≤ suc at + length t). omega arith) _
        (match_starts_within same q (length q - 1) (suc at) t),
  )
  | inr e ↦ rw e (
      All-weaken _ _ (λ s (h : s + length q ≤ suc at + length t). omega arith) _
        (match_starts_within same q zero (suc at) t))
]
match_starts_within same q (suc wait) at (d ∷ t) =
    All-weaken _ _ (λ s (h : s + length q ≤ suc at + length t). omega arith) _
      (match_starts_within same q wait (suc at) t)

module _ (same_letter : ℕ → ℕ → Bool) where
  only_match-ok :
      (quote content : Text) (starts : List ℕ) {r : Text}
      → All (λ s. s + length quote ≤ length content) starts
      → only_match same_letter quote content starts ≡ ok r
      → (occurs r content ≡ true) × (length r ≡ length quote)
  unfolding only_match
  only_match-ok quote content [] h e = cc
  only_match-ok quote content (s ∷ []) {r} h e =
      let same : slice s (s + length quote) content ≡ r = cc in
      subst (λ r. (occurs r content ≡ true) × (length r ≡ length quote)) same
        (
          occurs-slice s (s + length quote - s) content,
          omega (arith, length-take (s + length quote - s) (drop s content), length-drop s content),
        )
  only_match-ok quote content (s ∷ s' ∷ ss) h e = cc

  -- The quote that is kept stands in the source, and is as long as the one that was given.
  pub verbatim-ok :
      (quote content : Text) {r : Text}
      → verbatim same_letter quote content ≡ ok r
      → (occurs r content ≡ true) × (length r ≡ length quote)
  unfolding verbatim
  verbatim-ok quote content {r} h = elim (Bool-cases (occurs quote content)) [
    | inl e ↦
        let same : quote ≡ r = ground arith in
        subst (λ r. (occurs r content ≡ true) × (length r ≡ length quote)) same (e, refl)
    | inr e ↦
        only_match-ok quote content (match_starts same_letter quote 0 0 content)
          (All-weaken (λ s. s + length quote ≤ 0 + length content) _ (λ s h. omega arith) _
            (match_starts_within same_letter quote 0 0 content))
          (ground arith)
  ]
