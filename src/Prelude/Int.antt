-- ===== src/Prelude/Int.antt =====
-- Signed integers over the native numbers, by their two parts, which are numbers that the tactics read.
use test_codes.Prelude.{ℕ, ◌+◌}

-- `negsuc n` is -(n + 1).
pub data ℤ : Type 0 where
  pos : ℕ → ℤ
  negsuc : ℕ → ℤ

abbrev pub pos_part : ℤ → ℕ
pos_part (pos n) = n
pos_part (negsuc n) = 0

abbrev pub neg_part : ℤ → ℕ
neg_part (pos n) = 0
neg_part (negsuc n) = n + 1
