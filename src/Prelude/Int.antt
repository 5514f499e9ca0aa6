-- ===== src/Prelude/Int.antt =====
-- Go's `int` where it may be negative: the integers over the native numbers.
use Prim.Native.Nat.{ℕ}
use mathlib.Core.Bool.{Bool, false}
use ws_tunnel.Prelude.Tests.{leb}

-- `negsuc n` is -(n + 1).
pub data ℤ : Type 0 where
  pos : ℕ → ℤ
  negsuc : ℕ → ℤ

-- n ≤ z
abbrev pub at_least : ℕ → ℤ → Bool
at_least n (pos m) = leb n m
at_least n (negsuc m) = false

-- The value of an integer that is not negative.
abbrev pub to_ℕ : ℤ → ℕ
to_ℕ (pos m) = m
to_ℕ (negsuc m) = 0
