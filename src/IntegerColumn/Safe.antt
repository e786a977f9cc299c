-- ===== src/IntegerColumn/Safe.antt =====
-- A column that `decode` returns is read without a panic, whatever the bytes are.
use apfsearch.Prelude.{
  ℕ, zero, suc, ◌+◌, ◌*◌, ◌≤◌, ◌<◌, ◌≡◌, refl, sym, ap, ◌∙◌, subst, ◌&&◌, none, some, ltb, leb,
  if◌then◌else◌, List, [], ◌∷◌, length, All, get_elem?, arith, Bool-cases, inl, inr,
}
use native.Mathlib.Nat.{mod-eq_of_lt}
use apfsearch.Text.{Bytes}
use apfsearch.Column.{of_le, values}
use apfsearch.IntegerColumn.{Scalar, IntegerColumn, raw, packed, deltas, len, get}
use apfsearch.IntegerColumn.Codec.{align, checked, get_range, decode_data, decode}
use apfsearch.IntegerColumn.Ranks.{IsRank, IsColumn}
use apfsearch.IntegerColumn.Stored.{IsBytes, IsStored}
use apfsearch.IntegerColumn.Narrow.{offset_at_lem, offsets_len_lem}
use apfsearch.IntegerColumn.Decoded.{bind_some, checked-some, decode_data-Decoded}

member {ℓ} :
    {A : Type 0} (P : A → Type ℓ) (items : List A) (i : ℕ)
    → All P items
    → i < length items
    → (v : A) × (P v × (get_elem? items i ≡ some v))
member P [] i h k = absurd (omega arith)
member P (v ∷ items) zero h k = (v, (h.0, refl))
member P (v ∷ items) (suc i) h k = member P items i h.1 (omega arith)

module _ {T : Type 0} (s : Scalar T) (IsValue : T → Type 0) where
  -- A slot that is read without a panic, to a value of the machine type.
  abbrev pub IsReadable : IntegerColumn T → ℕ → Type 0
  IsReadable column slot = (v : T) × (IsValue v × (get s column slot ≡ some v))

  -- Every slot of a well-formed column is read without a panic.
  pub get_total :
      (column : IntegerColumn T) (slot : ℕ)
      → IsColumn s IsValue column
      → slot < len s column
      → IsReadable column slot
  get_total (raw column) slot h k = member IsValue (values s.value column) slot h k
  get_total (packed base offsets) slot (fit, (narrow, (low, h))) k =
      let inside : slot < length (deltas offsets) =
        subst (λ n. slot < n) (offsets_len_lem offsets) k in
      let (d, ((small, (v, (valid, e))), found)) =
        member (λ d. IsRank s IsValue (base + d)) (deltas offsets) slot h inside in
      (v, (valid, rw (offset_at_lem offsets slot, found, mod-eq_of_lt small) e))

some_pair : {A : Type 0} {B : Type 0} (p q : A × B) → some p ≡ some q → (p.0 ≡ q.0) × (p.1 ≡ q.1)
some_pair p q h = let same : p ≡ q = cc in (ap (λ r. r.0) same, ap (λ r. r.1) same)

get_range-some :
    (mapping : Bytes) (start end : ℕ) (bytes : Bytes)
    → get_range mapping start end ≡ some bytes
    → end ≤ length mapping
get_range-some mapping start end bytes h =
    elim (Bool-cases (leb start end && leb end (length mapping))) [
      | inl e ↦ ground arith
      | inr n ↦ cc (rw n at h)
    ]

not_beyond : (n end m : ℕ) → (if ltb end n then none else some end) ≡ some m → n ≤ end
not_beyond n end m h = elim (Bool-cases (ltb end n)) [
  | inl e ↦ cc (rw e at h)
  | inr k ↦ ground arith
]

module _ {T : Type 0} (s : Scalar T) (IsValue : T → Type 0) (l : IsStored s IsValue) where
  -- Whatever the bytes of a mapping are: if `decode` accepts a column of a count of values, the
  -- column has that count, every slot of it is read without a panic to a value of its type, and it
  -- ends within the section and the mapping.
  pub decode_safe :
      (mapping : Bytes) (offset count end next : ℕ) (column : IntegerColumn T)
      → IsBytes mapping
      → decode s mapping offset count end ≡ some (column, next)
      → (IsColumn s IsValue column × (len s column ≡ count))
        × (((next ≤ end) × (next ≤ length mapping))
            × ((slot : ℕ) → slot < count → IsReadable s IsValue column slot))
  unfolding decode
  decode_safe mapping offset count end next column h e =
      let (room, (r1, e1)) = bind_some (checked (offset + 7)) _ (column, next) e in
      let (head, (r2, e2)) = bind_some (checked (align offset + 16)) _ (column, next) e1 in
      let (fits, (r3, e3)) =
        bind_some (if ltb end head then none else some end) _ (column, next) e2 in
      let (base, (r4, e4)) =
        bind_some (get_range mapping (align offset) (align offset + 8)) _ (column, next) e3 in
      let (width, (r5, e5)) =
        bind_some (get_range mapping (align offset + 8) head) _ (column, next) e4 in
      let (size, (r6, e6)) = bind_some (checked (count * of_le width)) _ (column, next) e5 in
      let (last, (r7, e7)) = bind_some (checked (head + size)) _ (column, next) e6 in
      let (inside, (r8, e8)) =
        bind_some (if ltb end last then none else some end) _ (column, next) e7 in
      let (made, (r9, e9)) =
        bind_some (decode_data s mapping (of_le base) (of_le width) count head last) _
          (column, next) e8 in
      let (same, ends) = some_pair (made, last) (column, next) e9 in
      let total : last ≡ head + count * of_le width =
        sym (checked-some (head + size) last r7).0
        ∙ ap (λ n. head + n) (sym (checked-some (count * of_le width) size r6).0) in
      let (well, (n, within)) =
        decode_data-Decoded s IsValue l mapping (of_le base) (of_le width) count head last made h
          (get_range-some mapping (align offset + 8) head width r5) total r9 in
      let well' : IsColumn s IsValue column = subst (IsColumn s IsValue) same well in
      let n' : len s column ≡ count = subst (λ c. len s c ≡ count) same n in
      (
        (well', n'),
        (
          (
            subst (λ m. m ≤ end) ends (not_beyond last end inside r8),
            subst (λ m. m ≤ length mapping) ends within,
          ),
          λ slot k. get_total s IsValue column slot well' (omega (arith, n')),
        ),
      )
