-- ===== src/IntegerColumn/Written.antt =====
-- The bytes that a column is written as are read back as its values.
use apfsearch.Prelude.{
  ℕ, suc, ◌+◌, ◌-◌, ◌*◌, ◌%◌, ◌≤◌, ◌<◌, ◌≡◌, refl, sym, ap, ◌∙◌, false, some, ltb, List, [], ◌∷◌,
  ◌++◌, length, drop, slice, All, append_assoc, arith, length-append, length-drop, take_left,
  drop_left,
}
use native.Mathlib.Nat.{mul-div_cancel, mul-mod_left}
use apfsearch.Text.{Bytes}
use apfsearch.Column.{ColumnValue, mapped, word, read_values, write_values, values, map_range}
use apfsearch.IntegerColumn.Stored.{words, of_le-to_le, length-to_le}

pub slice_at :
    (a x r m : Bytes) (start end : ℕ)
    → m ≡ a ++ (x ++ r)
    → start ≡ length a
    → end ≡ length a + length x
    → slice start end m ≡ x
slice_at a x r m start end h k e =
    let span : end - start ≡ length x = omega arith in
    rw (h, span, drop_left start a (x ++ r) k) (take_left (length x) x r refl)

module _ {T : Type 0} (v : ColumnValue T) where
  -- Values that are read back from their bytes.
  abbrev pub IsKept : T → Type 0
  IsKept item = (v.of_bytes (v.to_bytes item) ≡ item) × (length (v.to_bytes item) ≡ v.size)

  read_written :
      (items : List T) (rest : Bytes)
      → All IsKept items
      → read_values v (length items) (write_values v items ++ rest) ≡ items
  read_written [] rest h = refl
  read_written (i ∷ items) rest ((back, size), h) =
      let shape : write_values v (i ∷ items) ++ rest
          ≡ v.to_bytes i ++ (write_values v items ++ rest) =
        append_assoc (v.to_bytes i) (write_values v items) rest in
      rw
        (
          shape,
          take_left v.size (v.to_bytes i) (write_values v items ++ rest) (sym size),
          drop_left v.size (v.to_bytes i) (write_values v items ++ rest) (sym size),
          back,
        )
        (ap (λ l. i ∷ l) (read_written items rest h))

  pub length-write_values :
      (items : List T) → All IsKept items → length (write_values v items) ≡ length items * v.size
  length-write_values [] h = omega arith
  length-write_values (i ∷ items) ((back, size), h) = omega (
    arith,
    size,
    length-append (v.to_bytes i) (write_values v items),
    length-write_values items h,
  )

  map_range_lem :
      (mapping : Bytes) (start end : ℕ)
      → start ≤ end
      → end ≤ length mapping
      → start % v.size ≡ 0
      → (end - start) % v.size ≡ 0
      → map_range v mapping start end ≡ some (mapped mapping start end)
  map_range_lem mapping start end h k a b =
      let first : ltb end start ≡ false = ground arith in
      let second : ltb (length mapping) end ≡ false = ground arith in rw (first, second, a, b) refl

  -- The range that the bytes of the values take is mapped, and has the values.
  pub mapped_back :
      (items : List T) (mapping rest : Bytes) (start : ℕ)
      → All IsKept items
      → 0 < v.size
      → start % v.size ≡ 0
      → start ≤ length mapping
      → drop start mapping ≡ write_values v items ++ rest
      → (map_range v mapping start (start + length items * v.size)
          ≡ some (mapped mapping start (start + length items * v.size)))
        × (values v (mapped mapping start (start + length items * v.size)) ≡ items)
  mapped_back items mapping rest start h pos aligned inside shape =
      let n = length items * v.size in
      let span : start + n - start ≡ n = omega arith in
      let room : length mapping - start ≡ n + length rest =
        sym (length-drop start mapping)
        ∙ (ap length shape
            ∙ (length-append (write_values v items) rest
                ∙ ap (λ k. k + length rest) (length-write_values items h))) in
      let multiple : n % v.size ≡ 0 = mul-mod_left (length items) v.size in
      (
        map_range_lem mapping start (start + n) (omega arith) (omega (arith, room)) aligned
            (ap (λ k. k % v.size) span ∙ multiple),
        rw (span, mul-div_cancel (length items) pos, shape) (read_written items rest h),
      )

-- Words of a width are read back.
pub words-IsKept :
    (width bound : ℕ) (ds : List ℕ)
    → words width ≡ suc bound
    → All (λ d. d ≤ bound) ds
    → All (IsKept (word width)) ds
words-IsKept width bound [] h k = tt
words-IsKept width bound (d ∷ ds) h k = (
  (of_le-to_le width d (omega (arith, k.0)), length-to_le width d),
  words-IsKept width bound ds h k.1,
)
