-- ===== src/ChunkedVec/Flat.antt =====
-- A vector of blocks holds the list of its entries.
use apfsearch.Prelude.{
  ℕ, zero, suc, ◌+◌, ◌-◌, ◌*◌, ◌/◌, ◌%◌, ◌≤◌, ◌<◌, ◌≡◌, refl, sym, ap, Option, none, some, List, [],
  ◌∷◌, ◌++◌, flatten, ◌==◌, if◌then◌else◌, length, get_elem?, ◌>>=◌, get-append_below,
  get-append_above, arith, append-nil, append_assoc, length-append, Bool-cases, inl, inr,
}
use apfsearch.ChunkedVec.{ChunkedVec, get, iter, push, push_last}

module _ {ℓ} {T : Type ℓ} where
  -- Every block but the last is full, and no block is empty.
  abbrev pub AreFull : List (List T) → Type 0
  AreFull [] = Unit {0}
  AreFull (c ∷ []) = (0 < length c) × (length c ≤ 4096)
  AreFull (c ∷ d ∷ chunks) = (length c ≡ 4096) × AreFull (d ∷ chunks)

  abbrev pub IsChunked : ChunkedVec T → Type 0
  IsChunked v = AreFull v.chunks × (v.length ≡ length (iter v))

  get-beyond : (l : List T) (i : ℕ) → length l ≤ i → get_elem? l i ≡ none
  get-beyond [] i h = refl
  get-beyond (a ∷ l) zero h = absurd (omega arith)
  get-beyond (a ∷ l) (suc i) h = get-beyond l i (omega arith)

  -- A read by block and offset.
  abbrev get_in : List (List T) → ℕ → ℕ → Option T
  get_in chunks i j = get_elem? chunks i >>= λ chunk. get_elem? chunk j

  get_in-flat :
      (chunks : List (List T)) (i j slot : ℕ)
      → AreFull chunks
      → j < 4096
      → slot ≡ 4096 * i + j
      → get_in chunks i j ≡ get_elem? (flatten chunks) slot
  unfolding flatten
  get_in-flat [] i j slot f h e = refl
  get_in-flat (c ∷ []) zero j slot (p, l) h e =
      let same : slot ≡ j = omega arith in rw (append-nil c, same) refl
  get_in-flat (c ∷ []) (suc i) j slot (p, l) h e =
      rw (append-nil c) (sym (get-beyond c slot (omega arith)))
  get_in-flat (c ∷ d ∷ chunks) zero j slot (k, f) h e =
      let same : slot ≡ j = omega arith in
      rw same (sym (get-append_below c (flatten (d ∷ chunks)) j (omega arith)))
  get_in-flat (c ∷ d ∷ chunks) (suc i) j slot (k, f) h e =
      rw (get-append_above c (flatten (d ∷ chunks)) slot (omega arith))
        (get_in-flat (d ∷ chunks) i j (slot - length c) f h (omega arith))

  -- A read of any slot, in range or not, is the read of the list of the entries.
  pub get-iter : (v : ChunkedVec T) (slot : ℕ) → IsChunked v → get v slot ≡ get_elem? (iter v) slot
  unfolding get iter
  get-iter v slot (f, e) =
      get_in-flat v.chunks (slot / 4096) (slot % 4096) slot f (omega arith) (omega arith)

  pub cons-AreFull :
      (c : List T) (p : List (List T))
      → length c ≡ 4096
      → AreFull p
      → 0 < length (flatten p)
      → AreFull (c ∷ p)
  unfolding flatten
  cons-AreFull c [] e f h = absurd (omega arith)
  cons-AreFull c (d ∷ p) e f h = (e, f)

  -- What an accepted push leaves.
  abbrev Pushed : Option (List (List T)) → List (List T) → T → Type ℓ
  Pushed done chunks a =
      (pushed : List (List T)) × (done ≡ some pushed)
      × AreFull pushed
      × (flatten pushed ≡ flatten chunks ++ (a ∷ []))

  Pushed-cons :
      (c d : List T) (rest chunks : List (List T)) (a : T)
      → length c ≡ 4096
      → Pushed (push_last (d ∷ rest) a) chunks a
      → Pushed (push_last (c ∷ d ∷ rest) a) (c ∷ chunks) a
  unfolding push_last flatten
  Pushed-cons c d rest chunks a e (pushed, done, full, flat) =
      let more : 0 < length (flatten pushed) =
        rw flat (omega (arith, length-append (flatten chunks) (a ∷ []))) in
      (
        c ∷ pushed,
        rw done refl,
        cons-AreFull c pushed e full more,
        rw flat (sym (append_assoc c (flatten chunks) (a ∷ []))),
      )

  -- The last block takes the entry if it is not full.
  push_last-Pushed :
      (chunks : List (List T)) (a : T)
      → AreFull chunks
      → 0 < length (flatten chunks) % 4096
      → Pushed (push_last chunks a) chunks a
  unfolding push_last flatten
  push_last-Pushed [] a f h = absurd (omega arith)
  push_last-Pushed (c ∷ []) a (p, l) h =
      let size = length-append c (a ∷ []) in
      let whole = append-nil c in
      let flat : length (c ++ []) ≡ length c = ap length whole in
      (
        (c ++ (a ∷ [])) ∷ [],
        refl,
        (omega (arith, size), omega (arith, size)),
        rw (append-nil (c ++ (a ∷ [])), whole) refl,
      )
  push_last-Pushed (c ∷ d ∷ chunks) a (e, f) h =
      Pushed-cons c d chunks (d ∷ chunks) a e
        (push_last-Pushed (d ∷ chunks) a f (omega (arith, length-append c (flatten (d ∷ chunks)))))

  -- A new block takes it otherwise.
  push_new-Pushed :
      (chunks : List (List T)) (a : T)
      → AreFull chunks
      → length (flatten chunks) % 4096 ≡ 0
      → Pushed (push_last (chunks ++ ([] ∷ [])) a) chunks a
  unfolding push_last flatten
  push_new-Pushed [] a f h = ((a ∷ []) ∷ [], refl, (omega arith, omega arith), refl)
  push_new-Pushed (c ∷ []) a (p, l) h =
      let flat : length (c ++ []) ≡ length c = ap length (append-nil c) in
      Pushed-cons c [] [] [] a (omega arith) (push_new-Pushed [] a tt refl)
  push_new-Pushed (c ∷ d ∷ chunks) a (e, f) h =
      Pushed-cons c d (chunks ++ ([] ∷ [])) (d ∷ chunks) a e
        (push_new-Pushed (d ∷ chunks) a f (omega (arith, length-append c (flatten (d ∷ chunks)))))

  push_any-Pushed :
      (v : ChunkedVec T) (a : T)
      → IsChunked v
      → Pushed
          (push_last (if v.length % 4096 == 0 then v.chunks ++ ([] ∷ []) else v.chunks) a)
          v.chunks
          a
  unfolding iter
  push_any-Pushed v a (f, e) = elim (Bool-cases (v.length % 4096 == 0)) [
    | inl h ↦ rw h (push_new-Pushed v.chunks a f (ground arith))
    | inr n ↦ rw n (push_last-Pushed v.chunks a f (ground arith))
  ]

  -- A push does not panic, keeps the blocks in order, and appends the entry.
  pub push-iter :
      (v : ChunkedVec T) (a : T)
      → IsChunked v
      → (pushed : ChunkedVec T) × (push v a ≡ some pushed)
        × IsChunked pushed
        × (iter pushed ≡ iter v ++ (a ∷ []))
  unfolding push iter
  push-iter v a (f, e) =
      let (chunks, done, full, flat) = push_any-Pushed v a (f, e) in
      (
        record { chunks = chunks; length = v.length + 1 },
        rw done refl,
        (full, rw flat (omega (arith, length-append (flatten v.chunks) (a ∷ [])))),
        flat,
      )
