-- ===== src/Prelude/Int.antt =====
-- Python's `int` where the program meets a negative one.
use Prim.Native.Nat.{ℕ}
use mathlib.Core.Bool.{Bool, true, false}
use docta.Prelude.Tests.{leb}

-- `negsuc n` is -(n + 1).
pub data ℤ : Type 0 where
  pos : ℕ → ℤ
  negsuc : ℕ → ℤ

-- `i >= n`
abbrev pub ge_ℕ : ℤ → ℕ → Bool
ge_ℕ (pos i) n = leb n i
ge_ℕ (negsuc i) n = false

abbrev pub is_negative : ℤ → Bool
is_negative (pos i) = false
is_negative (negsuc i) = true
