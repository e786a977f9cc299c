-- ===== src/IntegerColumn/Stored.antt =====
-- What a scalar promises of its bytes, and that the scalars of the core promise it.
use apfsearch.Prelude.{
  ℕ, zero, suc, ◌*◌, ◌/◌, ◌%◌, ◌≤◌, ◌<◌, ◌≡◌, refl, ap, ◌∙◌, true, some, ltb, [], ◌∷◌, length, take,
  drop, All, u32_max, arith, Bool-cases, inl, inr,
}
use apfsearch.Integer.{as_u64}
use apfsearch.Text.{Bytes}
use apfsearch.Compare.{int_cmp}
use apfsearch.ResultOrder.Changed.{int_cmp_sound, is_eq_sound}
use apfsearch.Column.{to_le, of_le}
use apfsearch.IntegerColumn.{Scalar, u64, u32, i64, flip_top, as_i64, top_bit}
use apfsearch.IntegerColumn.Ranks.{IsRank, IsU64, IsU32, IsI64, int_of_word, word_small, flip_small}

abbrev pub IsBytes : Bytes → Type 0
IsBytes = All (λ b. b < 256)

pub take-IsBytes : (n : ℕ) (bytes : Bytes) → IsBytes bytes → IsBytes (take n bytes)
take-IsBytes zero bytes h = tt
take-IsBytes (suc n) [] h = tt
take-IsBytes (suc n) (b ∷ bytes) h = (h.0, take-IsBytes n bytes h.1)

pub drop-IsBytes : (n : ℕ) (bytes : Bytes) → IsBytes bytes → IsBytes (drop n bytes)
drop-IsBytes zero bytes h = h
drop-IsBytes (suc n) [] h = tt
drop-IsBytes (suc n) (b ∷ bytes) h = drop-IsBytes n bytes h.1

-- The number of words of a width.
abbrev pub words : ℕ → ℕ
words zero = 1
words (suc width) = 256 * words width

pub of_le-lt :
    (width : ℕ) (bytes : Bytes) → IsBytes bytes → length bytes ≤ width → of_le bytes < words width
of_le-lt zero [] h k = omega arith
of_le-lt zero (b ∷ bytes) h k = absurd (omega arith)
of_le-lt (suc width) [] h k = omega (arith, of_le-lt width [] tt (omega arith))
of_le-lt (suc width) (b ∷ bytes) h k = omega (arith, h.0, of_le-lt width bytes h.1 (omega arith))

pub of_le-to_le : (width n : ℕ) → n < words width → of_le (to_le width n) ≡ n
of_le-to_le zero n h = omega arith
of_le-to_le (suc width) n h = omega (arith, of_le-to_le width (n / 256) (omega arith))

pub length-to_le : (width n : ℕ) → length (to_le width n) ≡ width
length-to_le zero n = refl
length-to_le (suc width) n = ap suc (length-to_le width (n / 256))

-- Bytes determine values, values their bytes, and smaller ranks are ranks.
pub record IsStored {T : Type 0} (s : Scalar T) (IsValue : T → Type 0) : Type 0 where
  pub size_wide : 4 ≤ s.value.size
  pub same_sound : (a b : T) → s.value.same a b ≡ true → a ≡ b
  pub size_small : s.value.size ≤ 8
  pub aligned : (k : ℕ) → k * 8 % s.value.size ≡ 0
  pub of_bytes-IsValue :
      (bytes : Bytes)
      → IsBytes bytes
      → length bytes ≤ s.value.size
      → IsValue (s.value.of_bytes bytes)
  pub of_bytes-to_bytes : (v : T) → IsValue v → s.value.of_bytes (s.value.to_bytes v) ≡ v
  pub length-to_bytes : (v : T) → length (s.value.to_bytes v) ≡ s.value.size
  pub smaller :
      (m n : ℕ) (v : T)
      → m ≤ n
      → n < 18446744073709551616
      → s.from_rank n ≡ some v
      → IsRank s IsValue m

pub u64-IsStored : IsStored u64 IsU64
u64-IsStored = record {
  same_sound = λ a b h. ground arith;
  size_wide = omega arith;
  size_small = omega arith;
  aligned = λ k. omega arith;
  of_bytes-IsValue = of_le-lt 8;
  of_bytes-to_bytes = of_le-to_le 8;
  length-to_bytes = length-to_le 8;
  smaller = λ m n v h k e. (omega arith, (m, (omega arith, refl)));
}

u32_rank : (n : ℕ) (v : ℕ) → u32.from_rank n ≡ some v → n ≤ u32_max
u32_rank n v h = ground arith

u32_value : (m : ℕ) → m ≤ u32_max → u32.from_rank m ≡ some m
u32_value m h = ground arith

pub u32-IsStored : IsStored u32 IsU32
u32-IsStored = record {
  same_sound = λ a b h. ground arith;
  size_wide = omega arith;
  size_small = omega arith;
  aligned = λ k. omega arith;
  of_bytes-IsValue = of_le-lt 4;
  of_bytes-to_bytes = of_le-to_le 4;
  length-to_bytes = length-to_le 4;
  smaller = λ m n v h k e.
      let small : m ≤ u32_max = omega (arith, u32_rank n v e) in
      (omega arith, (m, (omega (arith, small), u32_value m small)));
}

as_i64-IsI64 : (n : ℕ) → n < 18446744073709551616 → IsI64 (as_i64 n)
as_i64-IsI64 n h = elim (Bool-cases (ltb n top_bit)) [
  | inl e ↦ let small : n < 9223372036854775808 = ground arith in rw e small
  | inr k ↦ rw k (ground arith)
]

pub i64-IsStored : IsStored i64 IsI64
i64-IsStored = record {
  same_sound = λ a b h. int_cmp_sound a b (is_eq_sound (int_cmp a b) h);
  size_wide = omega arith;
  size_small = omega arith;
  aligned = λ k. omega arith;
  of_bytes-IsValue = λ bytes h k. as_i64-IsI64 (of_le bytes) (of_le-lt 8 bytes h k);
  of_bytes-to_bytes =
      λ v h. ap as_i64 (of_le-to_le 8 (as_u64 v) (word_small v h)) ∙ int_of_word v h;
  length-to_bytes = λ v. length-to_le 8 (as_u64 v);
  smaller = λ m n v h k e.
      let small : m < 18446744073709551616 = omega arith in
      (small, (as_i64 (flip_top m), (as_i64-IsI64 (flip_top m) (flip_small m small), refl)));
}
