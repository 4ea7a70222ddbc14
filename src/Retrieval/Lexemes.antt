-- ===== src/Retrieval/Lexemes.antt =====
-- postgres_retriever.py: the lexemes of a query, read from a tsquery's text and written as one. The
-- two regular expressions are written out as Python matches them.
use docta.Prelude.{
  ℕ, zero, suc, ◌-◌, Bool, true, false, not, ◌&&◌, ◌||◌, Option, none, some, List, [], ◌∷◌, ◌++◌,
  map, if◌then◌else◌, nat_beq, length, contains, nat_eq, list_eq,
}
use docta.Text.{Text, codes, join}

abbrev pub quote_char : ℕ
quote_char = 39

abbrev pub backslash : ℕ
backslash = 92

-- `''` or `\.` at the start: a character, and whether the next one belongs to it
unfoldable pub is_pair : ℕ → Text → Bool
is_pair c [] = false
is_pair c (d ∷ t) =
    (nat_beq c quote_char && nat_beq d quote_char) || (nat_beq c backslash && not (nat_beq d 10))

abbrev pub put_raw : ℕ → Option (Text × Text) → Option (Text × Text)
put_raw c none = none
put_raw c (some (raw, rest)) = some (c ∷ raw, rest)

-- `((?:[^'\\]|''|\\.)*)'` at the start: the group, and what follows. Where `''` is no pair that leads
-- to a match, its first quote closes. `second` says that the character belongs to the one before it.
unfoldable pub match_group : (second : Bool) → Text → Option (Text × Text)
match_group second [] = none
match_group true (c ∷ t) = put_raw c (match_group false t)
match_group false (c ∷ t) =
    let later = match_group (is_pair c t) t in
    if nat_beq c quote_char
    then (if is_pair c t
        then elim later [ some found ↦ put_raw c (some found) | none ↦ some ([], t) ]
        else some ([], t))
    else if nat_beq c backslash && not (is_pair c t)
    then none
    else put_raw c later

-- `_TSQUERY_LEXEME` at the start of a text
abbrev pub match_lexeme : ℕ → Text → Option (Text × Text)
match_lexeme c t = let found = match_group false t in if nat_beq c quote_char then found else none

abbrev pub groups : Option (Text × Text) → List Text
groups none = []
groups (some (raw, rest)) = raw ∷ []

-- the characters of `t` that a match takes
abbrev pub taken : Text → Option (Text × Text) → ℕ
taken t none = 0
taken t (some (raw, rest)) = length t - length rest

-- `_TSQUERY_LEXEME.findall`, after `skip` characters of the last match
unfoldable pub find_all : Text → (skip : ℕ) → List Text
find_all [] skip = []
find_all (c ∷ t) (suc skip) = find_all t skip
find_all (c ∷ t) zero = let m = match_lexeme c t in groups m ++ find_all t (taken t m)

-- what `_TSQUERY_UNESCAPE` puts for a pair: the character after a backslash, or one quote
abbrev pub second_of : ℕ → Text → ℕ
second_of c [] = c
second_of c (d ∷ t) = d

-- `_TSQUERY_UNESCAPE.sub(…)`
unfoldable pub unescape : (second : Bool) → Text → Text
unescape second [] = []
unescape true (c ∷ t) = unescape false t
unescape false (c ∷ t) =
    let rest = unescape (is_pair c t) t in (if is_pair c t then second_of c t else c) ∷ rest

-- `tuple(dict.fromkeys(…))`, after the keys that were seen
unfoldable pub from_keys : List Text → (seen : List Text) → List Text
from_keys [] seen = []
from_keys (t ∷ ts) seen =
    let rest = from_keys ts (if contains seen t then seen else t ∷ seen) in
    if contains seen t then rest else t ∷ rest

-- `_query_lexemes`
unfoldable pub query_lexemes : Text → List Text
query_lexemes plain_query_text =
    from_keys (map (λ raw. unescape false raw) (find_all plain_query_text 0)) []

-- `text.replace(c, cc)` for one character
unfoldable pub doubled : ℕ → Text → Text
doubled d [] = []
doubled d (c ∷ t) = let rest = doubled d t in if nat_beq c d then c ∷ c ∷ rest else c ∷ rest

unfoldable pub quoted : Text → Text
quoted lexeme = quote_char ∷ doubled quote_char (doubled backslash lexeme) ++ quote_char ∷ []

-- `_or_tsquery_text`
unfoldable pub or_tsquery_text : List Text → Text
or_tsquery_text lexemes = join (codes " | ") (map quoted lexemes)
