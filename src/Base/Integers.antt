-- ===== src/Base/Integers.antt =====
-- The type int of Go, by its value.
use Prim.Native.Nat.{ℕ}

pub data ℤ : Type 0 where
  pos : ℕ → ℤ
  -- - (n + 1)
  negsuc : ℕ → ℤ
