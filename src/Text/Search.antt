-- ===== src/Text/Search.antt =====
-- `str.rfind` of one character, `quote in content`, and the matches of an escaped pattern.
use docta.Prelude.{
  ℕ, zero, suc, ◌-◌, ◌≤◌, ◌<◌, ◌≡◌, Bool, true, false, ◌&&◌, ◌||◌, Option, some, none, List, [],
  ◌∷◌, arith, leb, nat_beq, if◌then◌else◌, length, get_elem?, ◌==◌, nat_eq, option_eq,
}
use docta.Text.Strip.{Text}

-- The highest index i with lo ≤ i < n at which the text has the character c.
unfoldable pub rfind : ℕ → ℕ → ℕ → Text → Option ℕ
rfind c lo zero t = none
rfind c lo (suc i) t =
    let lower = rfind c lo i t in if leb lo i && get_elem? t i == some c then some i else lower

pub rfind_bounds : (c lo n : ℕ) (t : Text) {i : ℕ} → rfind c lo n t ≡ some i → (lo ≤ i) × (i < n)
unfolding rfind
rfind_bounds c lo zero t h = cc
rfind_bounds c lo (suc n) t {i} h = ground (arith, rfind_bounds c lo n t {i = i})

-- One text begins another, character by character under the test `same`.
unfoldable pub starts_as : (ℕ → ℕ → Bool) → Text → Text → Bool
starts_as same [] t = true
starts_as same (c ∷ q) [] = false
starts_as same (c ∷ q) (d ∷ t) = same c d && starts_as same q t

-- `quote in content`
unfoldable pub occurs : Text → Text → Bool
unfolding starts_as
occurs q [] = starts_as nat_beq q []
occurs q (d ∷ t) = starts_as nat_beq q (d ∷ t) || occurs q t

-- `re.finditer(re.escape(quote), content, flags)`: the starts of the matches, which do not
-- overlap, from the left. `wait` counts the characters of the last match that are left.
unfoldable pub match_starts : (ℕ → ℕ → Bool) → Text → (wait at : ℕ) → Text → List ℕ
unfolding starts_as
match_starts same q zero at [] = if starts_as same q [] then at ∷ [] else []
match_starts same q (suc wait) at [] = []
match_starts same q zero at (d ∷ t) =
    let here = at ∷ match_starts same q (length q - 1) (suc at) t in
    let later = match_starts same q zero (suc at) t in
    if starts_as same q (d ∷ t) then here else later
match_starts same q (suc wait) at (d ∷ t) = match_starts same q wait (suc at) t
