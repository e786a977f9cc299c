-- ===== src/IntegerColumn/Ranged.antt =====
-- The bits of `fill_rank_range` are the comparison of the ranks with the bounds.
use apfsearch.Prelude.{
  ℕ, zero, suc, ◌+◌, ◌*◌, ◌%◌, ◌≤◌, ◌<◌, ◌≡◌, refl, sym, ◌∙◌, Option, none, some, ◌>>=◌, List, [],
  ◌∷◌, ltb, length, get_elem?, All, arith, Bool-cases, inl, inr,
}
use native.Mathlib.Nat.{mod-eq_of_lt}
use apfsearch.Text.{Bytes}
use apfsearch.Column.{values, word}
use apfsearch.IntegerColumn.{
  Scalar, Offsets, constant, byte, short, wide, IntegerColumn, raw, packed, deltas, offset_at,
  offsets_len, len, get,
}
use apfsearch.IntegerColumn.Fill.{fill_rank_range}
use apfsearch.IntegerColumn.Ranks.{IsScalar, IsColumn, IsFit, IsRank}
use apfsearch.IntegerColumn.Narrow.{offset_at_lem}
use apfsearch.IntegerColumn.Filled.{
  bit_at, in_range, bit_at-fill, bit_at-fill_offsets, bit_at-no_bits, bit_at-all_bits,
}

module _ {T : Type 0} (s : Scalar T) (IsValue : T → Type 0) (l : IsScalar s IsValue) where
  -- The offset that a value was read from.
  abbrev Read : ℕ → Option ℕ → T → Type 0
  Read base offset v =
      (d : ℕ) × ((offset ≡ some d) × (s.from_rank ((base + d) % 18446744073709551616) ≡ some v))

  get-Read :
      (base : ℕ) (offset : Option ℕ) (v : T)
      → (offset >>= λ d. s.from_rank ((base + d) % 18446744073709551616)) ≡ some v
      → Read base offset v
  get-Read base none v h = cc
  get-Read base (some d) v h = (d, (refl, h))

  rank_at :
      (base slot d : ℕ) (v : T) (ds : List ℕ)
      → All (λ d. IsRank s IsValue (base + d)) ds
      → get_elem? ds slot ≡ some d
      → s.from_rank ((base + d) % 18446744073709551616) ≡ some v
      → s.rank v ≡ base + d
  rank_at base slot d v [] h k e = cc
  rank_at base zero d v (c ∷ ds) h k e =
      let same : c ≡ d = cc in
      let small : base + d < 18446744073709551616 = omega (arith, h.0.0) in
      l.rank-from_rank (base + d) v small (rw (mod-eq_of_lt small) at e)
  rank_at base (suc slot) d v (c ∷ ds) h k e = rank_at base slot d v ds h.1 k e

  abbrev filled : ℕ → Offsets → Bytes → ℕ → ℕ → Bytes
  filled base offsets output lower upper =
      fill_rank_range s (packed base offsets) output lower upper

  of_offsets :
      (offsets : Offsets) (base slot d : ℕ) (output : Bytes) (lower upper : ℕ)
      → IsFit offsets
      → offsets_len offsets ≤ 8 * length output
      → offset_at offsets slot ≡ some d
      → bit_at (filled base offsets output lower upper) slot ≡ in_range lower upper (base + d)
  unfolding fill_rank_range
  of_offsets (constant count) base slot d output lower upper fit room at =
      elim (Bool-cases (ltb slot count)) [
        | inr n ↦ cc (rw n at at)
        | inl e ↦
            let first : 0 ≡ d = cc (rw e at at) in
            let same : base + d ≡ base = omega (arith, first) in
            let inside : slot < 8 * length output = ground arith in
            elim (Bool-cases (in_range lower upper base)) [
              | inl f ↦ rw (f, fill_rank_range, same, f) (bit_at-all_bits output slot inside)
              | inr m ↦ rw (m, fill_rank_range, same, m) (bit_at-no_bits output slot inside)
            ]
      ]
  of_offsets (byte column) base slot d output lower upper fit room at =
      bit_at-fill_offsets base lower upper 255 slot d (values (word 1) column) output room fit at
  of_offsets (short column) base slot d output lower upper fit room at =
      bit_at-fill_offsets base lower upper 65535 slot d (values (word 2) column) output room fit at
  of_offsets (wide column) base slot d output lower upper fit room at =
      bit_at-fill_offsets base lower upper 4294967295 slot d (values (word 4) column) output room
        fit at

  -- For every column whose values are those of its type and every slot that it has,
  -- `fill_rank_range` sets the bit of the slot if the rank of its value is between the bounds, and
  -- clears it if not, in all four representations, where the output has a bit for each slot.
  pub fill_rank_range_lem :
      (column : IntegerColumn T) (output : Bytes) (lower upper slot : ℕ) (v : T)
      → IsColumn s IsValue column
      → len s column ≤ 8 * length output
      → get s column slot ≡ some v
      → bit_at (fill_rank_range s column output lower upper) slot ≡ in_range lower upper (s.rank v)
  unfolding fill_rank_range
  fill_rank_range_lem (raw column) output lower upper slot v h room found =
      bit_at-fill (λ w. in_range lower upper (s.rank w)) output (values s.value column) slot v room
        found
  fill_rank_range_lem (packed base offsets) output lower upper slot v (fit, (narrow, (low, h))) room
        found =
      let (d, (at, e)) = get-Read base (offset_at offsets slot) v found in
      let at' : get_elem? (deltas offsets) slot ≡ some d = sym (offset_at_lem offsets slot) ∙ at in
      rw (rank_at base slot d v (deltas offsets) h at' e)
        (of_offsets offsets base slot d output lower upper fit room at)
