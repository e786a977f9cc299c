-- ===== src/IntegerColumn/Codec.antt =====
-- `encode` and `decode` of core/src/integer_column.rs. `encode` appends to the bytes of a file that
-- is mapped later; `decode` reads a column at an offset, and the offset behind it.
use apfsearch.Prelude.{
  ℕ, ◌+◌, ◌-◌, ◌*◌, ◌/◌, ◌&&◌, Option, none, some, ◌>>=◌, [], ◌++◌, ltb, leb, ◌==◌, if◌then◌else◌,
  length, replicate, usize_max, slice,
}
use apfsearch.Text.{Bytes}
use apfsearch.Column.{Column, word, map_range, column_bytes, to_le, of_le}
use apfsearch.IntegerColumn.{
  Scalar, Offsets, constant, byte, short, wide, IntegerColumn, raw, packed, deltas, greatest,
  offset_width,
}

-- `next_multiple_of(8)`, and `checked_add(7)? & !7` of what does not overflow
abbrev pub align : ℕ → ℕ
align n = (n + 7) / 8 * 8

abbrev pub offset_bytes : Offsets → Bytes
offset_bytes (constant count) = []
offset_bytes (byte column) = column_bytes (word 1) column
offset_bytes (short column) = column_bytes (word 2) column
offset_bytes (wide column) = column_bytes (word 4) column

abbrev pub checked : ℕ → Option ℕ
checked n = if leb n usize_max then some n else none

-- `mapping.get(start..end)`
abbrev pub get_range : Bytes → ℕ → ℕ → Option Bytes
get_range mapping start end =
    if leb start end && leb end (length mapping) then some (slice start end mapping) else none

abbrev pub as_column : (Column ℕ → Offsets) → Option (Column ℕ) → Option Offsets
as_column make none = none
as_column make (some column) = some (make column)

module _ {T : Type 0} (s : Scalar T) where
  abbrev pub written : ℕ → ℕ → Bytes → Bytes → Bytes
  written base width bytes output =
      (output ++ replicate (align (length output) - length output) 0)
      ++ (to_le 8 base ++ (to_le 8 width ++ bytes))

  unfoldable pub encode : IntegerColumn T → Bytes → Bytes
  encode (raw column) output = written 0 s.value.size (column_bytes s.value column) output
  encode (packed base offsets) output =
      written base (offset_width offsets) (offset_bytes offsets) output

  -- `match width { … }`
  abbrev pub decode_offsets : Bytes → ℕ → ℕ → ℕ → ℕ → Option Offsets
  decode_offsets mapping width count start end =
      if width == 0
      then some (constant count)
      else if width == 1
      then as_column byte (map_range (word 1) mapping start end)
      else if width == 2
      then as_column short (map_range (word 2) mapping start end)
      else if (width == 4) && ltb width s.value.size
      then as_column wide (map_range (word 4) mapping start end)
      else none

  unfoldable pub decode_data : Bytes → ℕ → ℕ → ℕ → ℕ → ℕ → Option (IntegerColumn T)
  decode_data mapping base width count start end =
      if width == s.value.size
      then if base == 0
        then (do column ← map_range s.value mapping start end; some (raw column))
        else none
      else (do
        low ← s.from_rank base
        offsets ← decode_offsets mapping width count start end
        top ← checked (base + greatest 0 (deltas offsets))
        high ← s.from_rank top
        some (packed base offsets))

  unfoldable pub decode : Bytes → ℕ → ℕ → ℕ → Option (IntegerColumn T × ℕ)
  unfolding decode_data
  decode mapping offset count end = do
    room ← checked (offset + 7)
    header_end ← checked (align offset + 16)
    fits ← if ltb end header_end then none else some end
    base ← get_range mapping (align offset) (align offset + 8)
    width ← get_range mapping (align offset + 8) header_end
    size ← checked (count * of_le width)
    next ← checked (header_end + size)
    inside ← if ltb end next then none else some end
    column ← decode_data mapping (of_le base) (of_le width) count header_end next
    some (column, next)
