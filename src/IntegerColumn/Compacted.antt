-- ===== src/IntegerColumn/Compacted.antt =====
-- Packing a column does not change its values.
use apfsearch.Prelude.{
  ℕ, zero, suc, ◌+◌, ◌-◌, ◌%◌, ◌≤◌, ◌<◌, ◌≡◌, refl, sym, ap, ◌∙◌, false, Option, some, ◌>>=◌, List,
  [], ◌∷◌, leb, length, get_elem?, map, All, arith, Bool-cases, inl, inr,
}
use native.Mathlib.Nat.{mod-eq_of_lt}
use apfsearch.Column.{Column, values, is_mapped}
use apfsearch.IntegerColumn.{
  Scalar, Offsets, IntegerColumn, raw, packed, deltas, offset_width, least, greatest, width_of, len,
  get, compact,
}
use apfsearch.IntegerColumn.Ranks.{IsScalar, IsColumn, IsFit, IsRank}
use apfsearch.IntegerColumn.Narrow.{
  Between, between, least-member, offsets_of_lem, offset_at_lem, offsets_len_lem,
}

narrower : (size width : ℕ) → size ≤ 8 → leb size width ≡ false → width < 8
narrower size width h k = ground arith

module _ {T : Type 0} (s : Scalar T) (IsValue : T → Type 0) (l : IsScalar s IsValue) where
  -- Packed ranks that are the offsets of values.
  abbrev unpack : ℕ → ℕ → Option T
  unpack low offset = s.from_rank ((low + offset) % 18446744073709551616)

  unpack_one :
      (low : ℕ) (v : T)
      → IsValue v
      → low ≤ s.rank v
      → s.from_rank ((low + (s.rank v - low)) % 18446744073709551616) ≡ some v
  unpack_one low v h k =
      let same : low + (s.rank v - low) ≡ s.rank v = omega arith in
      rw (same, mod-eq_of_lt (l.rank_small v h)) (l.from_rank-rank v h)

  get_packed :
      (low high : ℕ) (items : List T) (slot : ℕ)
      → All IsValue items
      → Between low high (map s.rank items)
      → (get_elem? (map (λ n. n - low) (map s.rank items)) slot >>= unpack low)
        ≡ get_elem? items slot
  get_packed low high [] slot h k = refl
  get_packed low high (v ∷ items) zero h k = unpack_one low v h.0 k.0.0
  get_packed low high (v ∷ items) (suc slot) h k = get_packed low high items slot h.1 k.1

  packed-IsColumn :
      (low high : ℕ) (items : List T)
      → All IsValue items
      → Between low high (map s.rank items)
      → All (λ d. IsRank s IsValue (low + d)) (map (λ n. n - low) (map s.rank items))
  packed-IsColumn low high [] h k = tt
  packed-IsColumn low high (v ∷ items) h k =
      let same : low + (s.rank v - low) ≡ s.rank v = omega arith in
      (
        rw same (l.rank_small v h.0, (v, (h.0, l.from_rank-rank v h.0))),
        packed-IsColumn low high items h.1 k.1,
      )

  rank_of : (v : T) → IsValue v → IsRank s IsValue (s.rank v)
  rank_of v h = (l.rank_small v h, (v, (h, l.from_rank-rank v h)))

  ranks_of : (items : List T) → All IsValue items → All (IsRank s IsValue) (map s.rank items)
  ranks_of [] h = tt
  ranks_of (v ∷ items) h = (rank_of v h.0, ranks_of items h.1)

  length-differences :
      (low : ℕ) (items : List T) → length (map (λ n. n - low) (map s.rank items)) ≡ length items
  length-differences low [] = refl
  length-differences low (v ∷ items) = ap suc (length-differences low items)

  -- What `compact` must keep.
  abbrev Kept : IntegerColumn T → IntegerColumn T → Type 0
  Kept column c =
      IsColumn s IsValue c
      × ((len s c ≡ len s column) × ((slot : ℕ) → get s c slot ≡ get s column slot))

  packed-Kept :
      (column : Column T) (items : List T) (low high : ℕ) (o : Offsets)
      → IsFit o
      → offset_width o < s.value.size
      → IsRank s IsValue low
      → values s.value column ≡ items
      → All IsValue items
      → Between low high (map s.rank items)
      → deltas o ≡ map (λ n. n - low) (map s.rank items)
      → Kept (raw column) (packed low o)
  packed-Kept column items low high o fit slim base same h k d = (
    (fit, (slim, (base, rw d (packed-IsColumn low high items h k)))),
    (
      offsets_len_lem o ∙ (ap length d ∙ (length-differences low items ∙ sym (ap length same))),
      λ slot. rw (offset_at_lem o slot, d, same) (get_packed low high items slot h k),
    ),
  )

  raw-Kept :
      (column : Column T) → All IsValue (values s.value column) → Kept (raw column) (raw column)
  raw-Kept column h = (h, (refl, λ slot. refl))

  compact_owned :
      (column : Column T) (items : List T)
      → values s.value column ≡ items
      → is_mapped s.value column ≡ false
      → All IsValue items
      → (c : IntegerColumn T) × ((compact s (raw column) ≡ some c) × Kept (raw column) c)
  unfolding compact
  compact_owned column [] same n h = (raw column, (rw (n, same) refl, raw-Kept column (rw same h)))
  compact_owned column (v ∷ items) same n h =
      let ranks = map s.rank items in
      let low = least (s.rank v) ranks in
      let high = greatest (s.rank v) ranks in
      let width = width_of (high - low) in
      let bounds = between (s.rank v) ranks in
      elim (Bool-cases (leb s.value.size width)) [
        | inl e ↦ (raw column, (rw (n, same, e) refl, raw-Kept column (rw same h)))
        | inr m ↦
            let narrow : width < 8 = narrower s.value.size width l.size_small m in
            let base : IsRank s IsValue low =
              least-member (IsRank s IsValue) (s.rank v) ranks (rank_of v h.0)
                (ranks_of items h.1) in
            let (o, (e, (size, (fit, d)))) =
              offsets_of_lem low high (s.rank v ∷ ranks) bounds narrow in
            let slim : offset_width o < s.value.size = ground arith in
            (
              packed low o,
              (
                rw (n, same, m, e) refl,
                packed-Kept column (v ∷ items) low high o fit slim base same h bounds d,
              ),
            )
      ]

  -- `compact` does not panic and keeps the length and every value of a column, whose values are
  -- those of its type; the packed column is well formed again, so that no sum of the base and an
  -- offset overflows.
  pub compact_keeps :
      (column : IntegerColumn T)
      → IsColumn s IsValue column
      → (c : IntegerColumn T) × ((compact s column ≡ some c)
          × (IsColumn s IsValue c
              × ((len s c ≡ len s column) × ((slot : ℕ) → get s c slot ≡ get s column slot))))
  unfolding compact
  compact_keeps (packed base offsets) h = (packed base offsets, (refl, (h, (refl, λ slot. refl))))
  compact_keeps (raw column) h = elim (Bool-cases (is_mapped s.value column)) [
    | inl e ↦ rw e (raw column, (refl, raw-Kept column h))
    | inr n ↦ compact_owned column (values s.value column) refl n h
  ]
