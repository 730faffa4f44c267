-- ===== src/Common/Int.antt =====
-- Go's signed `int`, where a caller may pass a negative number.
use Prim.Native.Nat.{ℕ}

-- `negsuc n` is -(n + 1).
pub data ℤ : Type 0 where
  pos : ℕ → ℤ
  negsuc : ℕ → ℤ
