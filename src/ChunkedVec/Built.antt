-- ===== src/ChunkedVec/Built.antt =====
-- The vector that is built from a sequence, and writes to a slot.
use apfsearch.Prelude.{
  ℕ, zero, suc, ◌+◌, ◌≤◌, ◌≡◌, refl, ap, List, [], ◌∷◌, ◌++◌, flatten, length, take, drop, arith,
  length-append, length-drop, length-take, take-append-drop,
}
use apfsearch.ChunkedVec.{chunk_length, iter, collect, from_iter}
use apfsearch.ChunkedVec.Flat.{AreFull, IsChunked}

module _ {ℓ} {T : Type ℓ} where
  -- The blocks of a loop of enough turns.
  abbrev Holds : List (List T) × ℕ → List T → Type ℓ
  Holds (chunks, total) values =
      AreFull chunks × (flatten chunks ≡ values) × (total ≡ length values)

  Holds-cons :
      (a : T) (values : List T) (chunks : List (List T)) (total : ℕ)
      → Holds (chunks, total) (drop chunk_length (a ∷ values))
      → Holds
          (take chunk_length (a ∷ values) ∷ chunks, length (take chunk_length (a ∷ values)) + total)
          (a ∷ values)
  unfolding flatten
  Holds-cons a values chunks total (full, flat, count) =
      let size = length-take chunk_length (a ∷ values) in
      let rest = length-drop chunk_length (a ∷ values) in
      (
        blocks chunks full flat,
        rw flat (take-append-drop chunk_length (a ∷ values)),
        omega (arith, size, rest, count),
      )
    where
      blocks :
          (cs : List (List T))
          → AreFull cs
          → flatten cs ≡ drop chunk_length (a ∷ values)
          → AreFull (take chunk_length (a ∷ values) ∷ cs)
      blocks [] f e =
          let size = length-take chunk_length (a ∷ values) in
          (omega (arith, size), omega (arith, size))
      blocks (c ∷ []) (p, l) e =
          let size = length-take chunk_length (a ∷ values) in
          let rest = length-drop chunk_length (a ∷ values) in
          let same : length (c ++ []) ≡ length (drop chunk_length (a ∷ values)) = ap length e in
          (omega (arith, size, rest, same, length-append c []), (p, l))
      blocks (c ∷ d ∷ cs) (k, f) e =
          let size = length-take chunk_length (a ∷ values) in
          let rest = length-drop chunk_length (a ∷ values) in
          let same : length (c ++ flatten (d ∷ cs)) ≡ length (drop chunk_length (a ∷ values)) =
            ap length e in
          (omega (arith, size, rest, same, length-append c (flatten (d ∷ cs))), (k, f))

  collect-Holds :
      (fuel : ℕ) (values : List T) → length values ≤ fuel → Holds (collect fuel values) values
  unfolding collect flatten
  collect-Holds zero [] h = (tt, refl, refl)
  collect-Holds zero (a ∷ values) h = absurd (omega arith)
  collect-Holds (suc fuel) [] h = (tt, refl, refl)
  collect-Holds (suc fuel) (a ∷ values) h =
      let (chunks, total) = collect fuel (drop chunk_length (a ∷ values)) in
      Holds-cons a values chunks total (
        collect-Holds fuel (drop chunk_length (a ∷ values))
          (omega (arith, length-drop chunk_length (a ∷ values))))

  -- A vector that is built from a sequence has blocks of 4096 entries but for the last, and its
  -- entries are those of the sequence in their order.
  pub iter-from_iter :
      (values : List T) → IsChunked (from_iter values) × (iter (from_iter values) ≡ values)
  unfolding from_iter iter
  iter-from_iter values =
      let (full, flat, count) = collect-Holds (length values) values (omega arith) in
      ((full, rw flat count), flat)
