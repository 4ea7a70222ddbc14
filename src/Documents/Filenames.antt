-- ===== src/Documents/Filenames.antt =====
-- What `_sanitize_filename` lets through.
use docta.Prelude.{
  ℕ, ◌≤◌, ◌≡◌, refl, Bool, true, false, not, ◌&&◌, ◌||◌, [], ◌∷◌, inl, inr, Bool-cases, arith,
  nat_beq, ltb, length, is_empty, all, filter, ok, raise_if->>-ok,
}
use mathlib.Core.Path.{subst}
use docta.Text.{Text, codes, strip, lstrip, rstrip}
use docta.Documents.Requests.{
  slashed, after_slash, ends_with, sanitize_filename, upload_validation_failure,
}

all-lstrip : (p : ℕ → Bool) (t : Text) → all p t ≡ true → all p (lstrip t) ≡ true
unfolding lstrip
all-lstrip p [] h = refl
all-lstrip p (c ∷ t) h = ground (arith, all-lstrip p t)

all-rstrip : (p : ℕ → Bool) (t : Text) → all p t ≡ true → all p (rstrip t) ≡ true
unfolding rstrip
all-rstrip p [] h = refl
all-rstrip p (c ∷ t) h = ground (arith, all-rstrip p t)

all-strip : (p : ℕ → Bool) (t : Text) → all p t ≡ true → all p (strip t) ≡ true
unfolding strip
all-strip p t h = all-rstrip p (lstrip t) (all-lstrip p t h)

all-filter : (p q : ℕ → Bool) (t : Text) → all p t ≡ true → all p (filter q t) ≡ true
all-filter p q [] h = refl
all-filter p q (c ∷ t) h = ground (arith, all-filter p q t)

all-filter_self : (p : ℕ → Bool) (t : Text) → all p (filter p t) ≡ true
all-filter_self p [] = refl
all-filter_self p (c ∷ t) = ground (arith, all-filter_self p t)

all-after_slash : (p : ℕ → Bool) (t : Text) → all p t ≡ true → all p (after_slash t) ≡ true
unfolding after_slash
all-after_slash p [] h = refl
all-after_slash p (c ∷ t) h = ground (arith, all-after_slash p t)

length-after_slash : (t : Text) → length (after_slash t) ≤ length t
unfolding after_slash
length-after_slash [] = omega arith
length-after_slash (c ∷ t) = ground (arith, length-after_slash t)

-- What is as long as the whole is the whole.
after_slash-whole : (t : Text) → length (after_slash t) ≡ length t → after_slash t ≡ t
unfolding after_slash
after_slash-whole [] h = refl
after_slash-whole (c ∷ t) h = ground (arith, length-after_slash t)

abbrev not_slash : ℕ → Bool
not_slash c = not (nat_beq c b'/')

abbrev pub not_separator : ℕ → Bool
not_separator c = not (nat_beq c b'/') && not (nat_beq c 92)

after_slash-free : (t : Text) → all not_slash (after_slash t) ≡ true
unfolding after_slash
after_slash-free [] = refl
after_slash-free (c ∷ t) =
    let free = after_slash-free t in
    elim (Bool-cases (nat_beq c b'/')) [
      | inl slash ↦ rw slash free
      | inr other ↦ elim (Bool-cases (nat_beq (length (after_slash t)) (length t))) [
        | inr shorter ↦ rw (other, shorter) free
        | inl whole ↦
            let rest : after_slash t ≡ t = after_slash-whole t (ground arith) in
            let tail : all not_slash t ≡ true = rw rest at free in rw (other, whole) (ground arith)
      ]
    ]

slashed-free : (t : Text) → all (λ c. not (nat_beq c 92)) (slashed t) ≡ true
slashed-free [] = refl
slashed-free (c ∷ t) = ground (arith, slashed-free t)

all-both :
    (p q : ℕ → Bool) (t : Text) → all p t ≡ true → all q t ≡ true → all (λ c. p c && q c) t ≡ true
all-both p q [] h k = refl
all-both p q (c ∷ t) h k = ground (arith, all-both p q t)

abbrev pub IsSafe : (lower : Text → Text) (is_printable : ℕ → Bool) → Text → Type 0
IsSafe lower is_printable safe =
    (all not_separator safe ≡ true)
    × (all is_printable safe ≡ true)
    × (1 ≤ length safe)
    × (length safe ≤ 255)
    × (ends_with (lower safe) (codes ".pdf") ≡ true)

not_empty : (t : Text) → is_empty t ≡ false → 1 ≤ length t
not_empty [] h = cc
not_empty (c ∷ t) h = omega arith

-- A file name that is let through has no path separator, only printable characters, between 1 and
-- 255 of them, and the suffix `.pdf` in some case.
pub sanitize_filename-ok :
    (lower : Text → Text) (is_printable : ℕ → Bool) (filename : Text) {safe : Text}
    → sanitize_filename lower is_printable filename ≡ ok safe
    → IsSafe lower is_printable safe
unfolding sanitize_filename
sanitize_filename-ok lower is_printable filename {safe} h =
    let base = after_slash (slashed filename) in
    let kept = strip (filter is_printable base) in
    let no_backslash = λ (c : ℕ). not (nat_beq c 92) in
    let (sized, h₁) =
      raise_if->>-ok
        (is_empty kept || ltb 255 (length kept) || not (ends_with (lower kept) (codes ".pdf")))
        (upload_validation_failure (codes "DOCUMENT_INVALID_FILENAME") 422) (ok kept) h in
    let made : kept ≡ safe = ground arith in
    let free =
      all-both not_slash no_backslash kept
        (all-strip not_slash _
          (all-filter not_slash is_printable base (after_slash-free (slashed filename))))
        (all-strip no_backslash _ (
          all-filter no_backslash is_printable base
            (all-after_slash no_backslash (slashed filename) (slashed-free filename)))) in
    let printable = all-strip is_printable _ (all-filter_self is_printable base) in
    subst (IsSafe lower is_printable) made
      (free, printable, not_empty kept (ground arith), ground arith, ground arith)
