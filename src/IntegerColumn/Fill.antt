-- ===== src/IntegerColumn/Fill.antt =====
-- `fill_rank_range` of core/src/integer_column.rs: a bit for each value whose rank is in a range.
use apfsearch.Prelude.{
  ℕ, ◌+◌, ◌-◌, ◌*◌, ◌%◌, Bool, ◌&&◌, Option, none, some, List, [], ◌∷◌, ltb, leb, if◌then◌else◌,
  take, drop, min, map,
}
use apfsearch.Text.{Bytes}
use apfsearch.Column.{values, word}
use apfsearch.IntegerColumn.{Scalar, constant, byte, short, wide, IntegerColumn, raw, packed}

-- `bits |= u8::from(…) << bit`, for bit 0 and on
abbrev pub pack : List Bool → ℕ
pack [] = 0
pack (b ∷ bits) = (if b then 1 else 0) + 2 * pack bits

-- `values.chunks(8).zip(output)`
unfoldable pub fill {ℓ} : {V : Type ℓ} → (V → Bool) → List V → Bytes → Bytes
fill predicate [] output = output
fill predicate (value ∷ items) [] = []
fill predicate (value ∷ items) (b ∷ output) =
    pack (map predicate (take 8 (value ∷ items))) ∷ fill predicate (drop 8 (value ∷ items)) output

-- The range of the offsets, where `maximum` is the greatest.
abbrev pub relative : ℕ → ℕ → ℕ → ℕ → Option (ℕ × ℕ)
relative base low high maximum =
    if ltb high base
    then none
    else let upper = min (high - base) maximum in
      let lower = low - base in if leb lower upper then some (lower, upper) else none

-- `output.fill(value)`
abbrev pub fill_all : ℕ → Bytes → Bytes
fill_all value [] = []
fill_all value (b ∷ output) = value ∷ fill_all value output

-- The arms of `Byte`, `Short` and `Word`. The bounds are cut to the width of an offset, of which
-- `maximum` is the greatest.
unfoldable pub fill_offsets : ℕ → ℕ → ℕ → ℕ → List ℕ → Bytes → Bytes
unfolding fill
fill_offsets base lower upper maximum offsets output = elim (relative base lower upper maximum) [
  | some (low, high) ↦
      fill (λ d. leb (low % (maximum + 1)) d && leb d (high % (maximum + 1))) offsets output
  | none ↦ fill_all 0 output
]

unfoldable pub fill_rank_range : {T : Type 0} → Scalar T → IntegerColumn T → Bytes → ℕ → ℕ → Bytes
unfolding fill fill_offsets
fill_rank_range s (raw column) output lower upper =
    fill (λ value. leb lower (s.rank value) && leb (s.rank value) upper) (values s.value column)
      output
fill_rank_range s (packed base (constant count)) output lower upper =
    fill_all (if leb lower base && leb base upper then 255 else 0) output
fill_rank_range s (packed base (byte column)) output lower upper =
    fill_offsets base lower upper 255 (values (word 1) column) output
fill_rank_range s (packed base (short column)) output lower upper =
    fill_offsets base lower upper 65535 (values (word 2) column) output
fill_rank_range s (packed base (wide column)) output lower upper =
    fill_offsets base lower upper 4294967295 (values (word 4) column) output
