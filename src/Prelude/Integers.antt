-- ===== src/Prelude/Integers.antt =====
-- The signed integers that the records hold.
use Prim.Native.Nat.{ℕ}

-- `negsuc n` is `- (n + 1)`.
pub data ℤ : Type 0 where
  pos negsuc : ℕ → ℤ
