-- ===== src/Prelude/Integers.antt =====
-- The signed integers that the source reads from outside, over the native numbers.
use scrigno.Prelude.{ℕ}

pub data ℤ : Type 0 where
  pos negsuc : ℕ → ℤ

-- `max(0)`.
unfoldable pub max_zero : ℤ → ℕ
max_zero (pos n) = n
max_zero (negsuc _) = 0
