-- ===== src/Column.antt =====
-- `Column` of core/src/entry_table.rs: values that are owned, or that a range of the bytes of a
-- mapping holds. The mapping begins at a multiple of every alignment, and a value is aligned to its
-- size. A column is passed by value; `Arc::make_mut` copies what is shared.
use apfsearch.Prelude.{
  ℕ, zero, suc, ◌+◌, ◌-◌, ◌*◌, ◌/◌, ◌%◌, Bool, true, false, ◌||◌, Option, none, some, List, [], ◌∷◌,
  ◌++◌, ltb, ◌==◌, if◌then◌else◌, length, get_elem?, set, take, drop, holds_at,
}
use apfsearch.Text.{Bytes}

-- What the values of a column are to Rust: their size, their bytes in memory, and `==`.
pub record ColumnValue (T : Type 0) : Type 0 where
  pub size : ℕ
  pub to_bytes : T → Bytes
  pub of_bytes : Bytes → T
  pub same : T → T → Bool

-- The bytes of a word, the lowest first.
abbrev pub to_le : ℕ → ℕ → Bytes
to_le zero n = []
to_le (suc width) n = n % 256 ∷ to_le width (n / 256)

abbrev pub of_le : Bytes → ℕ
of_le [] = 0
of_le (b ∷ bytes) = b + 256 * of_le bytes

-- `u8`, `u16`, `u32` and `u64`, by their size in bytes
abbrev pub word : ℕ → ColumnValue ℕ
word width = record { size = width; to_bytes = to_le width; of_bytes = of_le; same = λ a b. a == b }

pub data Column (T : Type 0) : Type 0 where
  owned : List T → Column T
  mapped : Bytes → ℕ → ℕ → Column T

module _ {T : Type 0} (v : ColumnValue T) where
  abbrev pub read_values : ℕ → Bytes → List T
  read_values zero bytes = []
  read_values (suc count) bytes =
      v.of_bytes (take v.size bytes) ∷ read_values count (drop v.size bytes)

  abbrev pub write_values : List T → Bytes
  write_values [] = []
  write_values (value ∷ values) = v.to_bytes value ++ write_values values

  abbrev pub values : Column T → List T
  values (owned items) = items
  values (mapped mapping start end) = read_values ((end - start) / v.size) (drop start mapping)

  abbrev pub is_mapped : Column T → Bool
  is_mapped (owned items) = false
  is_mapped (mapped mapping start end) = true

  -- `Column::mapped`
  abbrev pub map_range : Bytes → ℕ → ℕ → Option (Column T)
  map_range mapping start end =
      if ltb end start
        || ltb (length mapping) end
        || ltb 0 (start % v.size)
        || ltb 0 ((end - start) % v.size)
      then none
      else some (mapped mapping start end)

  -- `Column::set`; `none` is a write out of range.
  abbrev pub set_value : Column T → ℕ → T → Option (Column T)
  set_value column slot value =
      let items = values column in
      if holds_at (λ found. v.same found value) (get_elem? items slot)
      then some column
      else if slot == length items
      then some (owned (items ++ (value ∷ [])))
      else if ltb slot (length items)
      then some (owned (set items slot value))
      else none

  -- `Column::bytes`
  abbrev pub column_bytes : Column T → Bytes
  column_bytes column = write_values (values column)
