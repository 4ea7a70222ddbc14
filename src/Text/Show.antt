-- ===== src/Text/Show.antt =====
-- `str` of an integer, and `separator.join`.
use docta.Prelude.{ℕ, zero, suc, ◌+◌, ◌/◌, ◌%◌, List, [], ◌∷◌, ◌++◌, ltb, if◌then◌else◌}
use docta.Prelude.Int.{ℤ, pos, negsuc}
use docta.Text.Strip.{Text}

-- The decimal digits of n; `fuel` bounds their number.
unfoldable pub digits : (fuel n : ℕ) → Text
digits zero n = []
digits (suc fuel) n =
    let higher = digits fuel (n / 10) in
    if ltb n 10 then (b'0' + n) ∷ [] else higher ++ (b'0' + n % 10) ∷ []

unfoldable pub show_nat : ℕ → Text
unfolding digits
show_nat n = digits (suc n) n

-- `str(i + 1)`
unfoldable pub show_next : ℤ → Text
unfolding show_nat
show_next (pos n) = show_nat (n + 1)
show_next (negsuc zero) = show_nat 0
show_next (negsuc (suc n)) = b'-' ∷ show_nat (n + 1)

-- `separator.join(parts)`
unfoldable pub join : Text → List Text → Text
join separator [] = []
join separator (part ∷ []) = part
join separator (part ∷ next ∷ parts) = part ++ separator ++ join separator (next ∷ parts)
