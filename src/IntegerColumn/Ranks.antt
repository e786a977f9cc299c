-- ===== src/IntegerColumn/Ranks.antt =====
-- What a scalar promises: its ranks are 64-bit words that determine its values.
use apfsearch.Prelude.{
  ℕ, ◌+◌, ◌-◌, ◌≤◌, ◌<◌, ◌≡◌, refl, sym, ap, ◌∙◌, true, false, some, ltb, All, arith, Bool-cases,
  inl, inr,
}
use apfsearch.Integer.{ℤ, pos, negsuc, as_u64}
use apfsearch.Column.{values, word}
use apfsearch.IntegerColumn.{
  IntegerColumn, raw, packed, Offsets, constant, byte, short, wide, deltas, offset_width, Scalar,
  u64, u32, i64, flip_top, as_i64, top_bit,
}

-- `IsValue` holds of the values that the machine type has.
pub record IsScalar {T : Type 0} (s : Scalar T) (IsValue : T → Type 0) : Type 0 where
  pub size_small : s.value.size ≤ 8
  pub rank_small : (v : T) → IsValue v → s.rank v < 18446744073709551616
  pub from_rank-rank : (v : T) → IsValue v → s.from_rank (s.rank v) ≡ some v
  pub rank-from_rank :
      (n : ℕ) (v : T) → n < 18446744073709551616 → s.from_rank n ≡ some v → s.rank v ≡ n

abbrev pub IsU64 : ℕ → Type 0
IsU64 n = n < 18446744073709551616

abbrev pub IsU32 : ℕ → Type 0
IsU32 n = n < 4294967296

abbrev pub IsI64 : ℤ → Type 0
IsI64 (pos n) = n < 9223372036854775808
IsI64 (negsuc n) = n < 9223372036854775808

pub u64-IsScalar : IsScalar u64 IsU64
u64-IsScalar = record {
  size_small = omega arith;
  rank_small = λ v h. h;
  from_rank-rank = λ v h. refl;
  rank-from_rank = λ n v h e. cc;
}

pub u32-IsScalar : IsScalar u32 IsU32
u32-IsScalar = record {
  size_small = omega arith;
  rank_small = λ v h. omega arith;
  from_rank-rank = λ v h. ground arith;
  rank-from_rank = λ n v h e. ground arith;
}

i64_small : (v : ℤ) → IsI64 v → flip_top (as_u64 v) < 18446744073709551616
i64_small (pos n) h = ground arith
i64_small (negsuc n) h = ground arith

flip_twice : (n : ℕ) → n < 18446744073709551616 → flip_top (flip_top n) ≡ n
flip_twice n h = elim (Bool-cases (ltb n top_bit)) [
  | inl e ↦
      let low : n < 9223372036854775808 = ground arith in
      let high : ltb (n + 9223372036854775808) 9223372036854775808 ≡ false = ground arith in
      rw (e, high) (omega arith)
  | inr m ↦
      let small : ltb (n - 9223372036854775808) 9223372036854775808 ≡ true = ground arith in
      rw (m, small) (ground arith)
]

pub word_of_int : (n : ℕ) → n < 18446744073709551616 → as_u64 (as_i64 n) ≡ n
word_of_int n h = elim (Bool-cases (ltb n top_bit)) [
  | inl e ↦ rw e refl
  | inr m ↦ rw m (ground arith)
]

pub int_of_word : (v : ℤ) → IsI64 v → as_i64 (as_u64 v) ≡ v
int_of_word (pos n) h = let low : ltb n 9223372036854775808 ≡ true = ground arith in rw low refl
int_of_word (negsuc n) h =
    let high : ltb (18446744073709551615 - n) 9223372036854775808 ≡ false = ground arith in
    let back : 18446744073709551615 - (18446744073709551615 - n) ≡ n = omega arith in
    rw (high, back) refl

pub word_small : (v : ℤ) → IsI64 v → as_u64 v < 18446744073709551616
word_small (pos n) h = omega arith
word_small (negsuc n) h = omega arith

pub flip_small : (n : ℕ) → n < 18446744073709551616 → flip_top n < 18446744073709551616
flip_small n h = ground arith

pub i64-IsScalar : IsScalar i64 IsI64
i64-IsScalar = record {
  size_small = omega arith;
  rank_small = i64_small;
  from_rank-rank = λ v h. ap some (rw (flip_twice (as_u64 v) (word_small v h)) (int_of_word v h));
  rank-from_rank = λ n v h e.
      let same : as_i64 (flip_top n) ≡ v = cc in
      ap (λ z. flip_top (as_u64 z)) (sym same)
      ∙ (ap flip_top (word_of_int (flip_top n) (flip_small n h)) ∙ flip_twice n h);
}

-- The offsets are those of their width.
abbrev pub IsFit : Offsets → Type 0
IsFit (constant count) = Unit {0}
IsFit (byte column) = All (λ d. d ≤ 255) (values (word 1) column)
IsFit (short column) = All (λ d. d ≤ 65535) (values (word 2) column)
IsFit (wide column) = All (λ d. d ≤ 4294967295) (values (word 4) column)

-- A rank of a value of the machine type.
abbrev pub IsRank : {T : Type 0} → Scalar T → (T → Type 0) → ℕ → Type 0
IsRank s IsValue n = (n < 18446744073709551616) × ((v : _) × (IsValue v × (s.from_rank n ≡ some v)))

-- What holds of a column: its values are those of the machine type; a packed column has offsets
-- that are narrower than the values, and the base and its sum with every offset are ranks.
abbrev pub IsColumn : {T : Type 0} → Scalar T → (T → Type 0) → IntegerColumn T → Type 0
IsColumn s IsValue (raw column) = All IsValue (values s.value column)
IsColumn s IsValue (packed base offsets) =
    IsFit offsets
    × ((offset_width offsets < s.value.size)
        × (IsRank s IsValue base × All (λ d. IsRank s IsValue (base + d)) (deltas offsets)))
