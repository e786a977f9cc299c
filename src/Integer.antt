-- ===== src/Integer.antt =====
-- Signed integers over the native numbers; `negsuc n` is -(n + 1).
use apfsearch.Prelude.{ℕ, ◌-◌}

pub data ℤ : Type 0 where
  pos : ℕ → ℤ
  negsuc : ℕ → ℤ

-- `value as u64` of an `i64`
abbrev pub as_u64 : ℤ → ℕ
as_u64 (pos n) = n
as_u64 (negsuc n) = 18446744073709551615 - n
