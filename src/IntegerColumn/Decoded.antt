-- ===== src/IntegerColumn/Decoded.antt =====
-- What `decode` accepts can be read: no read of it panics.
use apfsearch.Prelude.{
  ℕ, ◌+◌, ◌*◌, ◌≤◌, ◌<◌, ◌≡◌, refl, subst, ◌&&◌, Option, none, some, ◌>>=◌, ltb, leb, ◌==◌, List,
  [], ◌∷◌, length, All, usize_max, arith, Bool-cases, inl, inr,
}
use apfsearch.Text.{Bytes}
use apfsearch.Column.{map_range}
use apfsearch.IntegerColumn.{
  Scalar, Offsets, constant, byte, short, wide, IntegerColumn, raw, packed, deltas, offset_width,
  offsets_len, greatest, len,
}
use apfsearch.IntegerColumn.Codec.{checked, decode_offsets, decode_data}
use apfsearch.IntegerColumn.Ranks.{IsRank, IsFit, IsColumn}
use apfsearch.IntegerColumn.Stored.{IsBytes, IsStored}
use apfsearch.IntegerColumn.Mapped.{words_read, map_range-Mapped}
use apfsearch.IntegerColumn.Narrow.{below}

pub bind_some :
    {A : Type 0} {B : Type 0} (o : Option A) (f : A → Option B) (b : B)
    → (o >>= f) ≡ some b
    → (a : A) × ((o ≡ some a) × (f a ≡ some b))
bind_some none f b h = cc
bind_some (some a) f b h = (a, (refl, h))

pub checked-some : (n m : ℕ) → checked n ≡ some m → (n ≡ m) × (n ≤ usize_max)
checked-some n m h = elim (Bool-cases (leb n usize_max)) [
  | inl e ↦ (cc (rw e at h), ground arith)
  | inr k ↦ cc (rw k at h)
]

module _ {T : Type 0} (s : Scalar T) (IsValue : T → Type 0) (l : IsStored s IsValue) where
  -- Offsets that are read.
  abbrev Offered : Bytes → ℕ → ℕ → Offsets → Type 0
  Offered mapping end count o =
      (offset_width o < s.value.size)
      × (IsFit o × ((offsets_len o ≡ count) × (end ≤ length mapping)))

  decode_offsets-Offered :
      (mapping : Bytes) (width count start end : ℕ) (o : Offsets)
      → IsBytes mapping
      → start ≤ length mapping
      → end ≡ start + count * width
      → decode_offsets s mapping width count start end ≡ some o
      → Offered mapping end count o
  decode_offsets-Offered mapping width count start end o h inside size e =
      elim (Bool-cases (width == 0)) [
        | inl f ↦
            let same : constant count ≡ o = cc (rw f at e) in
            let none_wide : width ≡ 0 = ground arith in
            let stay : end ≤ length mapping = omega (arith, rw none_wide at size) in
            subst (Offered mapping end count) same (omega (arith, l.size_wide), (tt, (refl, stay)))
        | inr no_zero ↦ elim (Bool-cases (width == 1)) [
          | inl f ↦
              let one : width ≡ 1 = ground arith in
              let (column, (made, (n, (fit, within)))) =
                words_read 1 255 byte mapping start end count o refl (omega arith) h
                  (rw one at size) (rw (no_zero, f) at e) in
              rw made (omega (arith, l.size_wide), (fit, (n, within)))
          | inr no_one ↦ elim (Bool-cases (width == 2)) [
            | inl f ↦
                let two : width ≡ 2 = ground arith in
                let (column, (made, (n, (fit, within)))) =
                  words_read 2 65535 short mapping start end count o refl (omega arith) h
                    (rw two at size) (rw (no_zero, no_one, f) at e) in
                rw made (omega (arith, l.size_wide), (fit, (n, within)))
            | inr no_two ↦ elim (Bool-cases ((width == 4) && ltb width s.value.size)) [
              | inl f ↦
                  let four : width ≡ 4 = ground arith in
                  let slim : 4 < s.value.size = ground arith in
                  let (column, (made, (n, (fit, within)))) =
                    words_read 4 4294967295 wide mapping start end count o refl (omega arith) h
                      (rw four at size) (rw (no_zero, no_one, no_two, f) at e) in
                  rw made (slim, (fit, (n, within)))
              | inr no_four ↦ cc (rw (no_zero, no_one, no_two, no_four) at e)
            ]
          ]
        ]
      ]

  -- What a decoded column is.
  abbrev pub Decoded : Bytes → ℕ → ℕ → IntegerColumn T → Type 0
  Decoded mapping end count column =
      IsColumn s IsValue column × ((len s column ≡ count) × (end ≤ length mapping))

  ranks_below :
      (base bound : ℕ) (v : T) (ds : List ℕ)
      → base + bound < 18446744073709551616
      → s.from_rank (base + bound) ≡ some v
      → All (λ d. d ≤ bound) ds
      → All (λ d. IsRank s IsValue (base + d)) ds
  ranks_below base bound v [] h e k = tt
  ranks_below base bound v (d ∷ ds) h e k = (
    l.smaller (base + d) (base + bound) v (omega (arith, k.0)) h e,
    ranks_below base bound v ds h e k.1,
  )

  pub decode_data-Decoded :
      (mapping : Bytes) (base width count start end : ℕ) (column : IntegerColumn T)
      → IsBytes mapping
      → start ≤ length mapping
      → end ≡ start + count * width
      → decode_data s mapping base width count start end ≡ some column
      → Decoded mapping end count column
  unfolding decode_data
  decode_data-Decoded mapping base width count start end column h inside size e =
      elim (Bool-cases (width == s.value.size)) [
        | inl f ↦ elim (Bool-cases (base == 0)) [
          | inl zero_base ↦
              let whole : width ≡ s.value.size = ground arith in
              let (items, (found, made)) =
                bind_some (map_range s.value mapping start end) (λ c. some (raw c)) column
                  (rw (f, zero_base) at e) in
              let (n, (valid, within)) =
                map_range-Mapped s.value IsValue mapping start end count items l.of_bytes-IsValue h
                  (rw whole at size) (omega (arith, l.size_wide)) found in
              let same : raw items ≡ column = cc in
              subst (Decoded mapping end count) same (valid, (n, within))
          | inr based ↦ cc (rw (f, based) at e)
        ]
        | inr n ↦
            let (low, (low_rank, e1)) = bind_some (s.from_rank base) _ column (rw n at e) in
            let (o, (read, e2)) =
              bind_some (decode_offsets s mapping width count start end) _ column e1 in
            let (top, (sum, e3)) = bind_some (checked (base + greatest 0 (deltas o))) _ column e2 in
            let (high, (high_rank, e4)) = bind_some (s.from_rank top) _ column e3 in
            let (total, room) = checked-some (base + greatest 0 (deltas o)) top sum in
            let (slim, (fit, (n_values, within))) =
              decode_offsets-Offered mapping width count start end o h inside size read in
            let small : base + greatest 0 (deltas o) < 18446744073709551616 = omega (arith, room) in
            let last : s.from_rank (base + greatest 0 (deltas o)) ≡ some high =
              rw total high_rank in
            let whole : All (λ d. IsRank s IsValue (base + d)) (deltas o) =
              ranks_below base (greatest 0 (deltas o)) high (deltas o) small last
                (below (greatest 0 (deltas o)) 0 (deltas o) (omega arith)) in
            let first : IsRank s IsValue base =
              l.smaller base (base + greatest 0 (deltas o)) high (omega arith) small last in
            let same : packed base o ≡ column = cc in
            subst (Decoded mapping end count) same
              ((fit, (slim, (first, whole))), (n_values, within))
      ]
