-- ===== src/IntegerColumn/RoundTrip.antt =====
-- `decode` reads what `encode` wrote.
use apfsearch.Prelude.{
  ℕ, ◌+◌, ◌*◌, ◌%◌, ◌≤◌, ◌<◌, ◌≡◌, refl, sym, ap, ◌∙◌, subst, true, false, Option, some, ltb, leb,
  ◌==◌, List, [], ◌∷◌, ◌++◌, length, drop, All, max, usize_max, get_elem?, arith, Bool-cases, inl,
  inr,
}
use apfsearch.Text.{Bytes}
use apfsearch.Column.{mapped, word, values, column_bytes}
use apfsearch.IntegerColumn.{
  Scalar, Offsets, constant, byte, short, wide, IntegerColumn, raw, packed, deltas, offset_width,
  offsets_len, greatest, len, get,
}
use apfsearch.IntegerColumn.Codec.{
  as_column, offset_bytes, written, encode, decode_offsets, decode_data,
}
use apfsearch.IntegerColumn.Ranks.{IsRank, IsFit, IsColumn}
use apfsearch.IntegerColumn.Stored.{IsStored}
use apfsearch.IntegerColumn.Narrow.{offset_at_lem}
use apfsearch.IntegerColumn.Written.{IsKept, mapped_back, length-write_values, words-IsKept}

-- What holds of the base and of the base with every offset holds of the greatest sum.
greatest-member : (P : ℕ → Type 0) (n : ℕ) (ds : List ℕ) → P n → All P ds → P (greatest n ds)
greatest-member P n [] p h = p
greatest-member P n (m ∷ ds) p h = elim (Bool-cases (leb n m)) [
  | inl e ↦
      let same : m ≡ max n m = ground arith in greatest-member P (max n m) ds (subst P same h.0) h.1
  | inr k ↦
      let same : n ≡ max n m = ground arith in greatest-member P (max n m) ds (subst P same p) h.1
]

-- Offsets that are read back.
abbrev Back : Offsets → Option Offsets → Type 0
Back o r = (q : Offsets) × ((r ≡ some q) × (deltas q ≡ deltas o))

eight_aligned :
    (start k : ℕ) → start ≡ k * 8 → ((start % 1 ≡ 0) × ((start % 2 ≡ 0) × (start % 4 ≡ 0)))
eight_aligned start k h = (omega arith, (omega arith, omega arith))

module _ {T : Type 0} (s : Scalar T) where
  offsets-Back :
      (o : Offsets) (mapping rest : Bytes) (start k : ℕ)
      → IsFit o
      → offset_width o < s.value.size
      → start ≡ k * 8
      → start ≤ length mapping
      → drop start mapping ≡ offset_bytes o ++ rest
      → Back o (
          decode_offsets s mapping
            (offset_width o)
            (offsets_len o)
            start
            (start + offsets_len o * offset_width o))
  offsets-Back (constant count) mapping rest start k fit slim a inside shape =
      (constant count, (refl, refl))
  offsets-Back (byte column) mapping rest start k fit slim a inside shape =
      let (found, same) =
        mapped_back (word 1) (values (word 1) column) mapping rest start
          (words-IsKept 1 255 (values (word 1) column) refl fit) (omega arith)
          (eight_aligned start k a).0 inside shape in
      (
        byte (mapped mapping start (start + length (values (word 1) column) * 1)),
        (ap (as_column byte) found, same),
      )
  offsets-Back (short column) mapping rest start k fit slim a inside shape =
      let (found, same) =
        mapped_back (word 2) (values (word 2) column) mapping rest start
          (words-IsKept 2 65535 (values (word 2) column) refl fit) (omega arith)
          (eight_aligned start k a).1.0 inside shape in
      (
        short (mapped mapping start (start + length (values (word 2) column) * 2)),
        (ap (as_column short) found, same),
      )
  offsets-Back (wide column) mapping rest start k fit slim a inside shape =
      let (found, same) =
        mapped_back (word 4) (values (word 4) column) mapping rest start
          (words-IsKept 4 4294967295 (values (word 4) column) refl fit) (omega arith)
          (eight_aligned start k a).1.1 inside shape in
      let slim' : ltb 4 s.value.size ≡ true = ground arith in
      (
        wide (mapped mapping start (start + length (values (word 4) column) * 4)),
        (rw slim' (ap (as_column wide) found), same),
      )

module _ {T : Type 0} (s : Scalar T) (IsValue : T → Type 0) (l : IsStored s IsValue) where
  abbrev pub base_in : IntegerColumn T → ℕ
  base_in (raw column) = 0
  base_in (packed base offsets) = base

  abbrev pub width_in : IntegerColumn T → ℕ
  width_in (raw column) = s.value.size
  width_in (packed base offsets) = offset_width offsets

  abbrev pub payload : IntegerColumn T → Bytes
  payload (raw column) = column_bytes s.value column
  payload (packed base offsets) = offset_bytes offsets

  pub encode-written :
      (column : IntegerColumn T) (output : Bytes)
      → encode s column output
        ≡ written s (base_in column) (width_in column) (payload column) output
  unfolding encode
  encode-written (raw column) output = refl
  encode-written (packed base offsets) output = refl

  All-IsKept : (items : List T) → All IsValue items → All (IsKept s.value) items
  All-IsKept [] h = tt
  All-IsKept (i ∷ items) h =
      ((l.of_bytes-to_bytes i h.0, l.length-to_bytes i), All-IsKept items h.1)

  length-offset_bytes :
      (o : Offsets) → IsFit o → length (offset_bytes o) ≡ offsets_len o * offset_width o
  length-offset_bytes (constant count) fit = omega arith
  length-offset_bytes (byte column) fit =
      length-write_values (word 1) (values (word 1) column)
        (words-IsKept 1 255 (values (word 1) column) refl fit)
  length-offset_bytes (short column) fit =
      length-write_values (word 2) (values (word 2) column)
        (words-IsKept 2 65535 (values (word 2) column) refl fit)
  length-offset_bytes (wide column) fit =
      length-write_values (word 4) (values (word 4) column)
        (words-IsKept 4 4294967295 (values (word 4) column) refl fit)

  pub length-payload :
      (column : IntegerColumn T)
      → IsColumn s IsValue column
      → length (payload column) ≡ len s column * width_in column
  length-payload (raw column) h =
      length-write_values s.value (values s.value column) (All-IsKept (values s.value column) h)
  length-payload (packed base offsets) h = length-offset_bytes offsets h.0

  -- The same values.
  abbrev pub Reads : IntegerColumn T → Option (IntegerColumn T) → Type 0
  Reads column r =
      (c : IntegerColumn T) × ((r ≡ some c) × ((slot : ℕ) → get s c slot ≡ get s column slot))

  packed_back :
      (base : ℕ) (offsets q : Offsets) (mapping : Bytes) (start end : ℕ)
      → IsColumn s IsValue (packed base offsets)
      → decode_offsets s mapping (offset_width offsets) (offsets_len offsets) start end ≡ some q
      → deltas q ≡ deltas offsets
      → Reads
          (packed base offsets)
          (decode_data s mapping base (offset_width offsets) (offsets_len offsets) start end)
  unfolding decode_data
  packed_back base offsets q mapping start end (fit, (slim, ((small, (v, (valid, low))), all)))
        found same =
      let other : (offset_width offsets == s.value.size) ≡ false = ground arith in
      let P = λ (d : ℕ). IsRank s IsValue (base + d) in
      let none : base + 0 ≡ base = omega arith in
      let first : P 0 = subst (IsRank s IsValue) (sym none) (small, (v, (valid, low))) in
      let (room, (w, (valid', top))) = greatest-member P 0 (deltas offsets) first all in
      let inside : leb (base + greatest 0 (deltas offsets)) usize_max ≡ true = ground arith in
      (
        packed base q,
        (
          rw (other, low, found, same, inside, top) refl,
          λ slot. rw (offset_at_lem q slot, offset_at_lem offsets slot, same) refl,
        ),
      )

  pub data_back :
      (column : IntegerColumn T) (mapping rest : Bytes) (start k : ℕ)
      → IsColumn s IsValue column
      → start ≡ k * 8
      → start ≤ length mapping
      → drop start mapping ≡ payload column ++ rest
      → Reads column (
          decode_data s mapping
            (base_in column)
            (width_in column)
            (len s column)
            start
            (start + len s column * width_in column))
  unfolding decode_data
  data_back (raw column) mapping rest start k h a inside shape =
      let items = values s.value column in
      let (found, same) =
        mapped_back s.value items mapping rest start (All-IsKept items h)
          (omega (arith, l.size_wide)) (ap (λ n. n % s.value.size) a ∙ l.aligned k) inside shape in
      let whole : (s.value.size == s.value.size) ≡ true = ground arith in
      (
        raw (mapped mapping start (start + length items * s.value.size)),
        (rw (whole, found) refl, λ slot. ap (λ l. get_elem? l slot) same),
      )
  data_back (packed base offsets) mapping rest start k h a inside shape =
      let (q, (found, same)) =
        offsets-Back s offsets mapping rest start k h.0 h.1.0 a inside shape in
      packed_back base offsets q mapping start (start + offsets_len offsets * offset_width offsets)
        h found same
