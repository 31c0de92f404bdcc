-- ===== src/Base/Integers.antt =====
-- A Go `int` as a natural number or what lies below zero.
use Prim.Native.Nat.{ℕ}

pub data ℤ : Type 0 where
  pos negsuc : ℕ → ℤ

-- An `int` is less than 2 ^ 63.
abbrev pub int_bound : ℕ
int_bound = 9223372036854775808
