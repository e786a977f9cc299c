-- ===== src/IntegerColumn.antt =====
-- core/src/integer_column.rs: columns of integers that are packed as offsets from their least rank.
-- `none` is a panic of a read or a write, and the rejection of bytes that do not decode.
pub mod Fill
pub mod Ranks
pub mod Narrow
pub mod Compacted
pub mod Filled
pub mod Ranged
pub mod Codec
pub mod Stored
pub mod Mapped
pub mod Decoded
pub mod Safe
pub mod Written
pub mod RoundTrip
pub mod Reread
pub mod SetLists
pub mod Set
mod Examples
use apfsearch.Prelude.{
  ℕ, zero, suc, ◌+◌, ◌-◌, ◌*◌, ◌/◌, ◌%◌, Bool, true, false, not, ◌&&◌, ◌||◌, Option, none, some,
  List, [], ◌∷◌, ◌++◌, ltb, leb, ◌==◌, if◌then◌else◌, length, get_elem?, set, take, drop, slice,
  holds_at, min, max, map, replicate, usize_max, u32_max, ◌>>=◌,
}
use apfsearch.Integer.{ℤ, pos, negsuc, as_u64}
use apfsearch.Text.{Bytes}
use apfsearch.TextOrder.{is_eq}
use apfsearch.Compare.{int_cmp}
use apfsearch.Column.{
  ColumnValue, Column, owned, mapped, word, values, is_mapped, map_range, set_value, column_bytes,
  to_le, of_le,
}

pub record Scalar (T : Type 0) : Type 0 where
  pub value : ColumnValue T
  pub rank : T → ℕ
  pub from_rank : ℕ → Option T

-- `1 << 63`, and the exclusive or with it
abbrev pub top_bit : ℕ
top_bit = 9223372036854775808

abbrev pub flip_top : ℕ → ℕ
flip_top n = if ltb n top_bit then n + top_bit else n - top_bit

-- `value as i64` of a `u64`
abbrev pub as_i64 : ℕ → ℤ
as_i64 n = if ltb n top_bit then pos n else negsuc (usize_max - n)

abbrev pub u64 : Scalar ℕ
u64 = record { value = word 8; rank = λ n. n; from_rank = λ n. some n }

abbrev pub u32 : Scalar ℕ
u32 = record {
  value = word 4;
  rank = λ n. n;
  from_rank = λ n. if leb n u32_max then some n else none;
}

abbrev pub i64 : Scalar ℤ
i64 = record {
  value = record {
    size = 8;
    to_bytes = λ z. to_le 8 (as_u64 z);
    of_bytes = λ bytes. as_i64 (of_le bytes);
    same = λ a b. is_eq (int_cmp a b);
  };
  rank = λ z. flip_top (as_u64 z);
  from_rank = λ n. some (as_i64 (flip_top n));
}

pub data Offsets : Type 0 where
  constant : ℕ → Offsets
  byte short wide : Column ℕ → Offsets

pub data IntegerColumn (T : Type 0) : Type 0 where
  raw : Column T → IntegerColumn T
  packed : ℕ → Offsets → IntegerColumn T

-- The offsets as a list.
abbrev pub deltas : Offsets → List ℕ
deltas (constant count) = replicate count 0
deltas (byte column) = values (word 1) column
deltas (short column) = values (word 2) column
deltas (wide column) = values (word 4) column

abbrev pub offsets_len : Offsets → ℕ
offsets_len (constant count) = count
offsets_len (byte column) = length (values (word 1) column)
offsets_len (short column) = length (values (word 2) column)
offsets_len (wide column) = length (values (word 4) column)

-- The bytes of an offset.
abbrev pub offset_width : Offsets → ℕ
offset_width (constant count) = 0
offset_width (byte column) = 1
offset_width (short column) = 2
offset_width (wide column) = 4

abbrev pub offset_at : Offsets → ℕ → Option ℕ
offset_at (constant count) slot = if ltb slot count then some 0 else none
offset_at (byte column) slot = get_elem? (values (word 1) column) slot
offset_at (short column) slot = get_elem? (values (word 2) column) slot
offset_at (wide column) slot = get_elem? (values (word 4) column) slot

-- The least and the greatest of the ranks.
abbrev pub least : ℕ → List ℕ → ℕ
least n [] = n
least n (m ∷ ranks) = least (min n m) ranks

abbrev pub greatest : ℕ → List ℕ → ℕ
greatest n [] = n
greatest n (m ∷ ranks) = greatest (max n m) ranks

abbrev pub width_of : ℕ → ℕ
width_of span =
    if span == 0
    then 0
    else if leb span 255
    then 1
    else if leb span 65535
    then 2
    else if leb span u32_max
    then 4
    else 8

-- `match width { 0 => …, 1 => …, 2 => …, 4 => …, _ => unreachable!() }`, with `value as u8` and so on
abbrev pub offsets_of : ℕ → List ℕ → Option Offsets
offsets_of width differences =
    if width == 0
    then some (constant (length differences))
    else if width == 1
    then some (byte (owned (map (λ d. d % 256) differences)))
    else if width == 2
    then some (short (owned (map (λ d. d % 65536) differences)))
    else if width == 4
    then some (wide (owned (map (λ d. d % 4294967296) differences)))
    else none

module _ {T : Type 0} (s : Scalar T) where
  abbrev pub len : IntegerColumn T → ℕ
  len (raw column) = length (values s.value column)
  len (packed base offsets) = offsets_len offsets

  -- `base + offset` wraps around.
  abbrev pub get : IntegerColumn T → ℕ → Option T
  get (raw column) slot = get_elem? (values s.value column) slot
  get (packed base offsets) slot = do
    offset ← offset_at offsets slot
    s.from_rank ((base + offset) % 18446744073709551616)

  -- What `for_each` visits.
  abbrev pub unpacked : ℕ → List ℕ → Option (List T)
  unpacked base [] = some []
  unpacked base (offset ∷ offsets) = do
    value ← s.from_rank ((base + offset) % 18446744073709551616)
    rest ← unpacked base offsets
    some (value ∷ rest)

  abbrev pub visited : IntegerColumn T → Option (List T)
  visited (raw column) = some (values s.value column)
  visited (packed base offsets) = unpacked base (deltas offsets)

  pub compact : IntegerColumn T → Option (IntegerColumn T)
  compact (packed base offsets) = some (packed base offsets)
  compact (raw column) =
      if is_mapped s.value column
      then some (raw column)
      else elim (map s.rank (values s.value column)) [
        | [] ↦ some (raw column)
        | rank ∷ ranks ↦
            let low = least rank ranks in
            let high = greatest rank ranks in
            let width = width_of (high - low) in
            if leb s.value.size width then some (raw column) else (do
              offsets ← offsets_of width (map (λ n. n - low) (rank ∷ ranks))
              some (packed low offsets))
      ]

  -- The write behind the test: packed values are unpacked first.
  abbrev pub write_slot : IntegerColumn T → ℕ → T → Option (IntegerColumn T)
  write_slot (raw items) slot value = do
    written ← set_value s.value items slot value
    some (raw written)
  write_slot (packed base offsets) slot value = do
    unpacked ← visited (packed base offsets)
    written ← set_value s.value (owned unpacked) slot value
    some (raw written)

  unfoldable pub set_slot : IntegerColumn T → ℕ → T → Option (IntegerColumn T)
  set_slot column slot value =
      if ltb slot (len column) && holds_at (λ found. s.value.same found value) (get column slot)
      then some column
      else write_slot column slot value
