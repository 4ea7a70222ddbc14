-- ===== src/Text/Strip.antt =====
-- `str.isspace` on one character, `str.strip`, and `text[a:b]`.
use Prim.Native.Char.{code}
use docta.Prelude.{
  ℕ, zero, suc, ◌+◌, ◌∙◌, ◌-◌, ◌≤◌, ◌<◌, ◌≡◌, refl, ap, String, Bool, true, false, ◌&&◌, ◌||◌, some,
  List, [], ◌∷◌, ◌++◌, arith, leb, nat_beq, if◌then◌else◌, length, get_elem?, take, drop, is_empty,
  all, nil_of_is_empty, Bool-cases, inl, inr,
}

abbrev pub Text : Type 0
Text = List ℕ

abbrev pub codes : String → Text
codes String.[] = []
codes (String.◌∷◌ c s) = code c ∷ codes s

-- The characters that `str.strip` removes.
unfoldable pub is_space : ℕ → Bool
is_space c =
    (leb 9 c && leb c 13)
    || (leb 28 c && leb c 32)
    || nat_beq c 0x85
    || nat_beq c 0xa0
    || nat_beq c 0x1680
    || (leb 0x2000 c && leb c 0x200a)
    || nat_beq c 0x2028
    || nat_beq c 0x2029
    || nat_beq c 0x202f
    || nat_beq c 0x205f
    || nat_beq c 0x3000

unfoldable pub lstrip : Text → Text
lstrip [] = []
lstrip (c ∷ t) = if is_space c then lstrip t else c ∷ t

unfoldable pub rstrip : Text → Text
rstrip [] = []
rstrip (c ∷ t) = let rest = rstrip t in if is_empty rest && is_space c then [] else c ∷ rest

-- `text.strip()`
unfoldable pub strip : Text → Text
unfolding lstrip rstrip
strip t = rstrip (lstrip t)

-- `text[a:b]`
abbrev pub slice : ℕ → ℕ → Text → Text
slice a b t = take (b - a) (drop a t)

-- `not text.strip()`
abbrev pub is_blank : Text → Bool
is_blank t = is_empty (strip t)

lstrip_split : (t : Text) → (pre : Text) × (t ≡ pre ++ lstrip t) × (all is_space pre ≡ true)
unfolding lstrip
lstrip_split [] = ([], refl, refl)
lstrip_split (c ∷ t) = elim (Bool-cases (is_space c)) [
  | inl e ↦ rw e (let (pre, p, sp) = lstrip_split t in (c ∷ pre, ap (λ r. c ∷ r) p, ground arith))
  | inr e ↦ rw e ([], refl, refl)
]

rstrip_split : (t : Text) → (post : Text) × (t ≡ rstrip t ++ post) × (all is_space post ≡ true)
unfolding rstrip
rstrip_split [] = ([], refl, refl)
rstrip_split (c ∷ t) =
    let (post, p, sp) = rstrip_split t in
    elim (Bool-cases (is_empty (rstrip t) && is_space c)) [
      | inl e ↦ rw e (
        c ∷ post,
        ap (λ r. c ∷ r) (p ∙ ap (λ r. r ++ post) (nil_of_is_empty (rstrip t) (ground arith))),
        ground arith,
      )
      | inr e ↦ rw e (post, ap (λ r. c ∷ r) p, sp)
    ]

-- What `strip` takes off is white space on both sides.
pub strip_split :
    (t : Text)
    → (pre : Text) × (post : Text) × (t ≡ pre ++ (strip t ++ post))
      × (all is_space pre ≡ true)
      × (all is_space post ≡ true)
unfolding strip
strip_split t =
    let (pre, p, sp) = lstrip_split t in
    let (post, q, sq) = rstrip_split (lstrip t) in (pre, post, p ∙ ap (λ r. pre ++ r) q, sp, sq)

-- A character that is not white space stands in neither of two blank ends.
pub inside :
    (pre mid post : Text) (i c : ℕ)
    → get_elem? (pre ++ (mid ++ post)) i ≡ some c
    → is_space c ≡ false
    → all is_space pre ≡ true
    → all is_space post ≡ true
    → (length pre ≤ i) × (i < length pre + length mid)
inside [] [] [] i c h n sp sq = cc
inside [] [] (x ∷ post) zero c h n sp sq = ground arith
inside [] [] (x ∷ post) (suc i) c h n sp sq = ground (arith, inside [] [] post i c h n)
inside [] (x ∷ mid) post zero c h n sp sq = omega arith
inside [] (x ∷ mid) post (suc i) c h n sp sq = omega (arith, inside [] mid post i c h n sp sq)
inside (x ∷ pre) mid post zero c h n sp sq = ground arith
inside (x ∷ pre) mid post (suc i) c h n sp sq = ground (arith, inside pre mid post i c h n)

length-lstrip_le : (t : Text) → length (lstrip t) ≤ length t
unfolding lstrip
length-lstrip_le [] = omega arith
length-lstrip_le (c ∷ t) = ground (arith, length-lstrip_le t)

length-rstrip_le : (t : Text) → length (rstrip t) ≤ length t
unfolding rstrip
length-rstrip_le [] = omega arith
length-rstrip_le (c ∷ t) = ground (arith, length-rstrip_le t)

pub length-strip_le : (t : Text) → length (strip t) ≤ length t
unfolding strip
length-strip_le t = omega (arith, length-rstrip_le (lstrip t), length-lstrip_le t)

-- A text of white space alone strips to nothing.
pub is_blank-all : (t : Text) → all is_space t ≡ true → is_blank t ≡ true
unfolding strip
is_blank-all [] h = refl
is_blank-all (c ∷ t) h = ground (arith, is_blank-all t)
