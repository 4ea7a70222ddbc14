-- ===== src/Retrieval/Escaping.antt =====
-- A query that is written is read as the lexemes it was made of.
use docta.Prelude.{
  ℕ, ◌-◌, ◌≡◌, refl, sym, ◌∙◌, ap, Bool, true, false, not, ◌||◌, some, List, [], ◌∷◌, ◌++◌, map,
  if◌then◌else◌, nat_beq, length, length-append, inl, inr, Bool-cases, arith, list_eq,
}
use mathlib.Core.List.{append_assoc, append-nil}
use docta.Text.{Text, codes, join}
use docta.Retrieval.Lexemes.{
  quote_char, backslash, is_pair, match_group, find_all, unescape, from_keys, query_lexemes,
  doubled, quoted, or_tsquery_text,
}

abbrev escaped : Text → Text
escaped t = doubled quote_char (doubled backslash t)

-- No quote stands first.
abbrev closes : Text → Bool
closes [] = true
closes (c ∷ t) = not (nat_beq c quote_char)

escaped-cases :
    (c : ℕ) (t : Text)
    → escaped (c ∷ t)
      ≡ (if nat_beq c quote_char || nat_beq c backslash then c ∷ c ∷ escaped t else c ∷ escaped t)
unfolding doubled
escaped-cases c t = ground arith

abbrev is_special : ℕ → Bool
is_special c = nat_beq c quote_char || nat_beq c backslash

is_pair-twice : (c : ℕ) (t : Text) → is_special c ≡ true → is_pair c (c ∷ t) ≡ true
unfolding is_pair
is_pair-twice c t e = ground arith

is_pair-plain : (c : ℕ) (t : Text) → is_special c ≡ false → is_pair c t ≡ false
unfolding is_pair
is_pair-plain c [] e = refl
is_pair-plain c (d ∷ t) e = ground arith

match_group-pair :
    (c d : ℕ) (t : Text) {raw rest : Text}
    → is_pair c (d ∷ t) ≡ true
    → match_group false t ≡ some (raw, rest)
    → match_group false (c ∷ d ∷ t) ≡ some (c ∷ d ∷ raw, rest)
unfolding match_group
match_group-pair c d t pair h = elim (Bool-cases (nat_beq c quote_char)) [
  | inl e ↦ rw (e, pair, h) refl
  | inr e ↦ rw (e, pair, h) (ground arith)
]

match_group-plain :
    (c : ℕ) (t : Text) {raw rest : Text}
    → is_special c ≡ false
    → match_group false t ≡ some (raw, rest)
    → match_group false (c ∷ t) ≡ some (c ∷ raw, rest)
unfolding match_group
match_group-plain c t e h =
    let pair = is_pair-plain c t e in
    let open_quote : nat_beq c quote_char ≡ false = ground arith in
    let slash : nat_beq c backslash ≡ false = ground arith in rw (open_quote, slash, pair, h) refl

-- The group of an escaped lexeme ends at the quote behind it.
match_group-escaped :
    (l rest : Text)
    → closes rest ≡ true
    → match_group false (escaped l ++ quote_char ∷ rest) ≡ some (escaped l, rest)
unfolding match_group doubled is_pair
match_group-escaped [] [] h = refl
match_group-escaped [] (d ∷ rest) h = ground arith
match_group-escaped (c ∷ l) rest h =
    let later = match_group-escaped l rest h in
    elim (Bool-cases (is_special c)) [
      | inl e ↦
          rw (escaped-cases c l, e)
            (match_group-pair c c (escaped l ++ quote_char ∷ rest)
              (is_pair-twice c (escaped l ++ quote_char ∷ rest) e) later)
      | inr e ↦
          rw (escaped-cases c l, e) (match_group-plain c (escaped l ++ quote_char ∷ rest) e later)
    ]

unescape-pair :
    (c d : ℕ) (t : Text)
    → is_pair c (d ∷ t) ≡ true
    → unescape false (c ∷ d ∷ t) ≡ d ∷ unescape false t
unfolding unescape
unescape-pair c d t pair = rw pair refl

unescape-plain :
    (c : ℕ) (t : Text) → is_pair c t ≡ false → unescape false (c ∷ t) ≡ c ∷ unescape false t
unfolding unescape
unescape-plain c t plain = rw plain refl

unescape-escaped : (l : Text) → unescape false (escaped l) ≡ l
unfolding unescape doubled
unescape-escaped [] = refl
unescape-escaped (c ∷ l) = elim (Bool-cases (is_special c)) [
  | inl e ↦
      rw (escaped-cases c l, e)
        (unescape-pair c c (escaped l) (is_pair-twice c (escaped l) e)
          ∙ ap (λ t. c ∷ t) (unescape-escaped l))
  | inr e ↦
      rw (escaped-cases c l, e)
        (unescape-plain c (escaped l) (is_pair-plain c (escaped l) e)
          ∙ ap (λ t. c ∷ t) (unescape-escaped l))
]

find_all-skip : (u rest : Text) → find_all (u ++ rest) (length u) ≡ find_all rest 0
unfolding find_all
find_all-skip [] rest = refl
find_all-skip (c ∷ u) rest = find_all-skip u rest

-- A quoted lexeme is one match.
find_all-quoted :
    (l rest : Text)
    → closes rest ≡ true
    → find_all (quoted l ++ rest) 0 ≡ escaped l ∷ find_all rest 0
unfolding find_all quoted
find_all-quoted l rest h =
    let u = escaped l ++ quote_char ∷ [] in
    let found : match_group false (u ++ rest) ≡ some (escaped l, rest) =
      rw (append_assoc (escaped l) (quote_char ∷ []) rest) (match_group-escaped l rest h) in
    let size = length-append u rest in
    let count : length (u ++ rest) - length rest ≡ length u = omega (arith, size) in
    rw (found, count) (ap (λ r. escaped l ∷ r) (find_all-skip u rest))

find_all-query : (ls : List Text) → find_all (or_tsquery_text ls) 0 ≡ map escaped ls
unfolding or_tsquery_text join find_all
find_all-query [] = refl
find_all-query (l ∷ []) =
    ap (λ t. find_all t 0) (sym (append-nil (quoted l))) ∙ find_all-quoted l [] refl
find_all-query (l ∷ k ∷ ls) =
    ap (λ t. find_all t 0) (append_assoc (quoted l) (codes " | ") (or_tsquery_text (k ∷ ls)))
    ∙ find_all-quoted l (codes " | " ++ or_tsquery_text (k ∷ ls)) refl
    ∙ ap (λ r. escaped l ∷ r) (find_all-query (k ∷ ls))

unescape-all : (ls : List Text) → map (λ raw. unescape false raw) (map escaped ls) ≡ ls
unescape-all [] = refl
unescape-all (l ∷ ls) = rw (unescape-escaped l, unescape-all ls) refl

-- The lexemes that are read from the query written for some lexemes are those lexemes, each once,
-- whatever quotes and backslashes are in them: no lexeme breaks or extends the query.
pub query_lexemes-or_tsquery_text :
    (lexemes : List Text) → query_lexemes (or_tsquery_text lexemes) ≡ from_keys lexemes []
unfolding query_lexemes
query_lexemes-or_tsquery_text lexemes =
    ap (λ raws. from_keys (map (λ raw. unescape false raw) raws) []) (find_all-query lexemes)
    ∙ ap (λ ls. from_keys ls []) (unescape-all lexemes)
