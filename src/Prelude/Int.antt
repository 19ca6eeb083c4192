-- ===== src/Prelude/Int.antt =====
-- Go's `int`, where the source compares it with 0: exit codes, limits and caps.
use Prim.Native.Nat.{ℕ}
use mathlib.Core.Bool.{Bool, true, false}
use agentic_delegator.Prelude.Tests.{ltb, eqb}

-- `negsuc n` is -(n + 1).
pub data ℤ : Type 0 where
  pos : ℕ → ℤ
  negsuc : ℕ → ℤ

-- n > 0
abbrev pub is_positive : ℤ → Bool
is_positive (pos n) = ltb 0 n
is_positive (negsuc n) = false

-- n == 0
abbrev pub is_zero : ℤ → Bool
is_zero (pos n) = eqb n 0
is_zero (negsuc n) = false

-- m > n for a count m, which is never negative
abbrev pub exceeds : ℕ → ℤ → Bool
exceeds m (pos n) = ltb n m
exceeds m (negsuc n) = true

-- The value, where it is known to be positive.
abbrev pub to_nat : ℤ → ℕ
to_nat (pos n) = n
to_nat (negsuc n) = 0
