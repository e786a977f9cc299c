-- ===== src/IntegerColumn/Mapped.antt =====
-- Columns of a range of the bytes of a mapping: their length and their values.
use apfsearch.Prelude.{
  ℕ, zero, suc, ◌+◌, ◌-◌, ◌*◌, ◌/◌, ◌%◌, ◌≤◌, ◌<◌, ◌≡◌, refl, ap, ◌∙◌, Bool, false, ◌||◌, Option,
  none, some, ltb, length, take, drop, All, arith, Bool-cases, inl, inr, length-take,
}
use native.Mathlib.Nat.{mul-div_cancel}
use apfsearch.Text.{Bytes}
use apfsearch.Column.{ColumnValue, Column, mapped, word, of_le, read_values, values, map_range}
use apfsearch.IntegerColumn.{Offsets}
use apfsearch.IntegerColumn.Codec.{as_column}
use apfsearch.IntegerColumn.Stored.{IsBytes, take-IsBytes, drop-IsBytes, words, of_le-lt}

module _ {T : Type 0} (v : ColumnValue T) where
  length-read_values : (n : ℕ) (bytes : Bytes) → length (read_values v n bytes) ≡ n
  length-read_values zero bytes = refl
  length-read_values (suc n) bytes = ap suc (length-read_values n (drop v.size bytes))

  read_values-All :
      (P : T → Type 0) (n : ℕ) (bytes : Bytes)
      → ((b : Bytes) → IsBytes b → length b ≤ v.size → P (v.of_bytes b))
      → IsBytes bytes
      → All P (read_values v n bytes)
  read_values-All P zero bytes h k = tt
  read_values-All P (suc n) bytes h k = (
    h (take v.size bytes) (take-IsBytes v.size bytes k) (omega (arith, length-take v.size bytes)),
    read_values-All P n (drop v.size bytes) h (drop-IsBytes v.size bytes k),
  )

  -- A range that is mapped is within the bytes.
  map_range-within :
      (mapping : Bytes) (start end : ℕ) (column : Column T)
      → map_range v mapping start end ≡ some column
      → (column ≡ mapped mapping start end) × (end ≤ length mapping)
  map_range-within mapping start end column h =
      elim (Bool-cases (
        ltb end start
        || ltb (length mapping) end
        || ltb 0 (start % v.size)
        || ltb 0 ((end - start) % v.size))) [
          | inl e ↦ cc (rw e at h)
          | inr n ↦ (
            cc (rw n at h),
            second (ltb end start) (length mapping) end (ltb 0 (start % v.size))
                (ltb 0 ((end - start) % v.size)) n,
          )
        ]
    where
      second : (a : Bool) (m n : ℕ) (c d : Bool) → (a || ltb m n || c || d) ≡ false → n ≤ m
      second a m n c d h = ground arith

  length-mapped :
      (mapping : Bytes) (start end count : ℕ)
      → end ≡ start + count * v.size
      → 0 < v.size
      → length (values v (mapped mapping start end)) ≡ count
  length-mapped mapping start end count h pos =
      let span : end - start ≡ count * v.size = omega arith in
      length-read_values ((end - start) / v.size) (drop start mapping)
      ∙ (ap (λ n. n / v.size) span ∙ mul-div_cancel count pos)

  -- A range of a number of values, mapped.
  abbrev pub Mapped : (T → Type 0) → Bytes → ℕ → ℕ → Column T → Type 0
  Mapped P mapping end count column =
      (length (values v column) ≡ count) × (All P (values v column) × (end ≤ length mapping))

  pub map_range-Mapped :
      (P : T → Type 0) (mapping : Bytes) (start end count : ℕ) (column : Column T)
      → ((b : Bytes) → IsBytes b → length b ≤ v.size → P (v.of_bytes b))
      → IsBytes mapping
      → end ≡ start + count * v.size
      → 0 < v.size
      → map_range v mapping start end ≡ some column
      → Mapped P mapping end count column
  map_range-Mapped P mapping start end count column f h size pos e =
      let (same, inside) = map_range-within mapping start end column e in
      rw same (
        length-mapped mapping start end count size pos,
        (
          read_values-All P ((end - start) / v.size) (drop start mapping) f
              (drop-IsBytes start mapping h),
          inside,
        ),
      )

pub small_word :
    (width bound : ℕ)
    → words width ≡ suc bound
    → (b : Bytes) → IsBytes b
    → length b ≤ width
    → of_le b ≤ bound
small_word width bound e b h k = omega (arith, of_le-lt width b h k)

pub as_column-some :
    (make : Column ℕ → Offsets) (o : Option (Column ℕ)) (offsets : Offsets)
    → as_column make o ≡ some offsets
    → (column : Column ℕ) × ((o ≡ some column) × (offsets ≡ make column))
as_column-some make none offsets h = cc
as_column-some make (some column) offsets h = (column, (refl, cc))

-- The offsets of a width that are mapped.
pub words_read :
    (width bound : ℕ) (make : Column ℕ → Offsets) (mapping : Bytes) (start end count : ℕ)
    (o : Offsets)
    → words width ≡ suc bound
    → 0 < width
    → IsBytes mapping
    → end ≡ start + count * width
    → as_column make (map_range (word width) mapping start end) ≡ some o
    → (column : Column ℕ) × ((o ≡ make column)
        × Mapped (word width) (λ d. d ≤ bound) mapping end count column)
words_read width bound make mapping start end count o h pos bytes size e =
    let (column, (found, made)) =
      as_column-some make (map_range (word width) mapping start end) o e in
    (
      column,
      (
        made,
        map_range-Mapped (word width) (λ d. d ≤ bound) mapping start end count column
            (small_word width bound h) bytes size pos found,
      ),
    )
