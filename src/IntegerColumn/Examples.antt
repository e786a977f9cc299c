-- ===== src/IntegerColumn/Examples.antt =====
-- Tests of core/src/integer_column.rs.
use apfsearch.Prelude.{ℕ, ◌≡◌, ◌≢◌, ◌≤◌, ◌<◌, ◌++◌, refl, some, [], ◌∷◌, arith, length}
use apfsearch.Integer.{ℤ, pos, negsuc}
use apfsearch.Text.{Bytes}
use apfsearch.Column.{owned}
use apfsearch.IntegerColumn.{
  u64, i64, IntegerColumn, raw, packed, byte, constant, len, get, compact, set_slot,
}
use apfsearch.IntegerColumn.Codec.{encode, decode}
use apfsearch.IntegerColumn.Fill.{fill_rank_range}
use apfsearch.IntegerColumn.Ranks.{IsColumn, IsI64, IsU64, i64-IsScalar}
use apfsearch.IntegerColumn.Stored.{IsBytes, i64-IsStored, u64-IsStored}
use apfsearch.IntegerColumn.Compacted.{compact_keeps}
use apfsearch.IntegerColumn.Filled.{bit_at, in_range}
use apfsearch.IntegerColumn.Ranged.{fill_rank_range_lem}
use apfsearch.IntegerColumn.Safe.{IsReadable, decode_safe}
use apfsearch.IntegerColumn.Reread.{decode-encode}
use apfsearch.IntegerColumn.Set.{set_slot_lem}

-- Times around the epoch, unpacked and packed.
abbrev times : IntegerColumn ℤ
times = raw (owned (negsuc 2 ∷ pos 4 ∷ pos 0 ∷ []))

abbrev packed_times : IntegerColumn ℤ
packed_times = packed 9223372036854775805 (byte (owned (0 ∷ 7 ∷ 3 ∷ [])))

times-IsColumn : IsColumn i64 IsI64 times
times-IsColumn = (omega arith, (omega arith, (omega arith, tt)))

compact-times : compact i64 times ≡ some packed_times
unfolding compact
compact-times = refl

compact_keeps_example :
    (c : IntegerColumn ℤ) × ((compact i64 times ≡ some c)
      × (IsColumn i64 IsI64 c
          × ((len i64 c ≡ len i64 times) × ((slot : ℕ) → get i64 c slot ≡ get i64 times slot))))
compact_keeps_example = compact_keeps i64 IsI64 i64-IsScalar times times-IsColumn

fill_rank_range_lem_example :
    bit_at (fill_rank_range i64 times (0 ∷ []) 9223372036854775806 9223372036854775812) 1
    ≡ in_range 9223372036854775806 9223372036854775812 9223372036854775812
fill_rank_range_lem_example =
    fill_rank_range_lem i64 IsI64 i64-IsScalar times (0 ∷ []) 9223372036854775806
      9223372036854775812 1 (pos 4) times-IsColumn (omega arith) refl

set_slot_lem_example :
    (c : IntegerColumn ℤ) × ((set_slot i64 times 3 (pos 9) ≡ some c)
      × (IsColumn i64 IsI64 c
          × ((get i64 c 3 ≡ some (pos 9))
              × ((other : ℕ) → other ≢ 3 → get i64 c other ≡ get i64 times other))))
set_slot_lem_example =
    set_slot_lem i64 IsI64 i64-IsStored times 3 (pos 9) times-IsColumn (omega arith) (omega arith)

decode-encode_example :
    (c : IntegerColumn ℤ) × ((decode i64 (encode i64 times (1 ∷ 2 ∷ []) ++ (7 ∷ [])) 2 3 1000
        ≡ some (c, length (encode i64 times (1 ∷ 2 ∷ []))))
      × ((slot : ℕ) → get i64 c slot ≡ get i64 times slot))
unfolding encode
decode-encode_example =
    decode-encode i64 IsI64 i64-IsStored times (1 ∷ 2 ∷ []) (7 ∷ []) 1000 times-IsColumn
      (omega arith) (omega arith)

-- A column of two equal values: the header alone.
abbrev file : Bytes
file = 5 ∷ 0 ∷ 0 ∷ 0 ∷ 0 ∷ 0 ∷ 0 ∷ 0 ∷ 0 ∷ 0 ∷ 0 ∷ 0 ∷ 0 ∷ 0 ∷ 0 ∷ 0 ∷ []

abbrev fives : IntegerColumn ℕ
fives = packed 5 (constant 2)

file-IsBytes : IsBytes file
file-IsBytes = ground arith

read_fives : decode u64 file 0 2 16 ≡ some (fives, 16)
unfolding decode
read_fives = refl

decode_safe_example :
    (IsColumn u64 IsU64 fives × (len u64 fives ≡ 2))
    × (((16 ≤ 16) × (16 ≤ length file)) × ((slot : ℕ) → slot < 2 → IsReadable u64 IsU64 fives slot))
decode_safe_example =
    decode_safe u64 IsU64 u64-IsStored file 0 2 16 16 fives file-IsBytes read_fives
