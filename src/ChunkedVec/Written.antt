-- ===== src/ChunkedVec/Written.antt =====
-- Writes to a slot of a vector of blocks.
use apfsearch.Prelude.{
  ℕ, zero, suc, ◌+◌, ◌-◌, ◌*◌, ◌/◌, ◌%◌, ◌≤◌, ◌<◌, ◌≡◌, refl, sym, ap, ◌∙◌, true, some, List, [],
  ◌∷◌, ◌++◌, flatten, ltb, length, get_elem?, set, arith, append-nil, length-append,
}
use apfsearch.ChunkedVec.{ChunkedVec, iter, write}
use apfsearch.ChunkedVec.Flat.{AreFull, IsChunked, cons-AreFull}

module _ {ℓ} {T : Type ℓ} where
  length-set : (l : List T) (i : ℕ) (a : T) → length (set l i a) ≡ length l
  length-set [] i a = refl
  length-set (b ∷ l) zero a = refl
  length-set (b ∷ l) (suc i) a = ap suc (length-set l i a)

  set-append_below :
      (l m : List T) (i : ℕ) (a : T) → i < length l → set (l ++ m) i a ≡ set l i a ++ m
  set-append_below [] m i a h = absurd (omega arith)
  set-append_below (b ∷ l) m zero a h = refl
  set-append_below (b ∷ l) m (suc i) a h = ap (λ r. b ∷ r) (set-append_below l m i a (omega arith))

  set-append_above :
      (l m : List T) (i : ℕ) (a : T) → length l ≤ i → set (l ++ m) i a ≡ l ++ set m (i - length l) a
  set-append_above [] m i a h = let whole : i - 0 ≡ i = omega arith in rw whole refl
  set-append_above (b ∷ l) m zero a h = absurd (omega arith)
  set-append_above (b ∷ l) m (suc i) a h =
      let less : suc i - suc (length l) ≡ i - length l = omega arith in
      rw less (ap (λ r. b ∷ r) (set-append_above l m i a (omega arith)))

  -- A write by block and offset is in range, and is the write to the entries.
  abbrev IsWrite : List (List T) → ℕ → ℕ → ℕ → T → Type ℓ
  IsWrite chunks i j slot a =
      (chunk : List T) × (get_elem? chunks i ≡ some chunk)
      × (j < length chunk)
      × AreFull (set chunks i (set chunk j a))
      × (flatten (set chunks i (set chunk j a)) ≡ set (flatten chunks) slot a)

  set_in-flat :
      (chunks : List (List T)) (i j slot : ℕ) (a : T)
      → AreFull chunks
      → j < 4096
      → slot ≡ 4096 * i + j
      → slot < length (flatten chunks)
      → IsWrite chunks i j slot a
  unfolding flatten
  set_in-flat [] i j slot a f h e s = absurd (omega arith)
  set_in-flat (c ∷ []) zero j slot a (p, l) h e s =
      let same : slot ≡ j = omega arith in
      let size = length-set c j a in
      let whole : length (c ++ []) ≡ length c = ap length (append-nil c) in
      (
        c,
        refl,
        omega arith,
        (omega arith, omega arith),
        rw (append-nil (set c j a), append-nil c, same) refl,
      )
  set_in-flat (c ∷ []) (suc i) j slot a (p, l) h e s =
      let whole : length (c ++ []) ≡ length c = ap length (append-nil c) in absurd (omega arith)
  set_in-flat (c ∷ d ∷ chunks) zero j slot a (k, f) h e s =
      let same : slot ≡ j = omega arith in
      (
        c,
        refl,
        omega arith,
        (omega (arith, length-set c j a), f),
        rw same (sym (set-append_below c (flatten (d ∷ chunks)) j a (omega arith))),
      )
  set_in-flat (c ∷ d ∷ chunks) (suc i) j slot a (k, f) h e s =
      let size = length-append c (flatten (d ∷ chunks)) in
      let (chunk, found, within, full, flat) =
        set_in-flat (d ∷ chunks) i j (slot - length c) a f h (omega arith) (omega arith) in
      let more : 0 < length (flatten (set (d ∷ chunks) i (set chunk j a))) =
        rw flat (omega (arith, length-set (flatten (d ∷ chunks)) (slot - length c) a)) in
      (
        chunk,
        found,
        within,
        cons-AreFull c (set (d ∷ chunks) i (set chunk j a)) k full more,
        ap (λ r. c ++ r) flat
            ∙ sym (set-append_above c (flatten (d ∷ chunks)) slot a (omega arith)),
      )

  -- A write to a slot in range does not panic, keeps the blocks in order, and changes that entry
  -- and no other.
  pub write-iter :
      (v : ChunkedVec T) (slot : ℕ) (a : T)
      → IsChunked v
      → slot < v.length
      → (written : ChunkedVec T) × (write v slot a ≡ some written)
        × IsChunked written
        × (iter written ≡ set (iter v) slot a)
  unfolding write iter
  write-iter v slot a (f, e) s =
      let (chunk, found, within, full, flat) =
        set_in-flat v.chunks (slot / 4096) (slot % 4096) slot a f (omega arith) (omega arith)
          (omega arith) in
      let chunks = set v.chunks (slot / 4096) (set chunk (slot % 4096) a) in
      let in_vector : ltb slot v.length ≡ true = ground arith in
      let in_block : ltb (slot % 4096) (length chunk) ≡ true = ground arith in
      (
        record v { chunks = chunks },
        rw (in_vector, found, in_block) refl,
        (full, rw flat (omega (arith, length-set (flatten v.chunks) slot a))),
        flat,
      )
