-- ===== src/SlotOrder/Search/Spread.antt =====
-- The search in the leaves is a search in the whole order.
use apfsearch.Prelude.{
  ℕ, zero, suc, ◌+◌, ◌-◌, ◌≤◌, ◌<◌, ◌≡◌, refl, ap, ◌∙◌, true, false, Option, some, List, [], ◌∷◌,
  ◌++◌, flatten, Ordering, length, get_elem?, take, drop, All, partition_point, is_lt, arith,
  Bool-cases, inl, inr, length-append, get-append_above, take-append, drop-append,
  drop-append_beyond, take-append_beyond,
}
use apfsearch.SlotOrder.{from_blocks, len, start, iter}
use apfsearch.SlotOrder.Ranks.{start_from, start_shift, len-from_blocks}
use apfsearch.SlotOrder.Search.{
  Found, found, missing, grade, IsSearchable, IsFound, Searcher, shifted, ends_below, search_leaf,
  binary_search_by,
}

module _ (compare : ℕ → Ordering) where
  abbrev Less : List ℕ → Type 0
  Less = All (λ s. compare s ≡ Ordering.lt)

  abbrev Greater : List ℕ → Type 0
  Greater = All (λ s. compare s ≡ Ordering.gt)

  grade_less : (o p : Ordering) → grade o ≤ grade p → p ≡ Ordering.lt → o ≡ Ordering.lt
  grade_less o p h k = ground arith

  grade_greater : (o p : Ordering) → grade o ≤ grade p → o ≡ Ordering.gt → p ≡ Ordering.gt
  grade_greater o p h k = ground arith

  All-front : (P : ℕ → Type 0) (b rest : List ℕ) → All P (b ++ rest) → All P b
  All-front P [] rest h = tt
  All-front P (s ∷ b) rest h = (h.0, All-front P b rest h.1)

  All-behind : (P : ℕ → Type 0) (b rest : List ℕ) → All P (b ++ rest) → All P rest
  All-behind P [] rest h = h
  All-behind P (s ∷ b) rest h = All-behind P b rest h.1

  All-both : (P : ℕ → Type 0) (b rest : List ℕ) → All P b → All P rest → All P (b ++ rest)
  All-both P [] rest h k = k
  All-both P (s ∷ b) rest h k = (h.0, All-both P b rest h.1 k)

  front-IsSearchable : (b rest : List ℕ) → IsSearchable compare (b ++ rest) → IsSearchable compare b
  front-IsSearchable [] rest h = tt
  front-IsSearchable (s ∷ b) rest h = (
    All-front (λ t. grade (compare s) ≤ grade (compare t)) b rest h.0,
    front-IsSearchable b rest h.1,
  )

  behind-IsSearchable :
      (b rest : List ℕ) → IsSearchable compare (b ++ rest) → IsSearchable compare rest
  behind-IsSearchable [] rest h = h
  behind-IsSearchable (s ∷ b) rest h = behind-IsSearchable b rest h.1

  -- A leaf whose last slot is less is less.
  ends_below-Less : (b : List ℕ) → IsSearchable compare b → ends_below compare b ≡ true → Less b
  ends_below-Less [] h k = tt
  ends_below-Less (s ∷ []) h k = (ground arith, tt)
  ends_below-Less (s ∷ t ∷ b) h k =
      let rest = ends_below-Less (t ∷ b) h.1 k in
      (grade_less (compare s) (compare t) h.0.0 rest.0, rest)

  pub All-Greater :
      (s : ℕ) (rest : List ℕ)
      → compare s ≡ Ordering.gt
      → All (λ t. grade (compare s) ≤ grade (compare t)) rest
      → Greater rest
  All-Greater s [] e h = tt
  All-Greater s (t ∷ rest) e h =
      (grade_greater (compare s) (compare t) h.0 e, All-Greater s rest e h.1)

  -- Behind a leaf whose last slot is greater, all is greater. A leaf that does not end below, and in
  -- which nothing is equal, ends so.
  behind-Greater :
      (rank : ℕ) (s : ℕ) (b rest : List ℕ)
      → IsSearchable compare ((s ∷ b) ++ rest)
      → ends_below compare (s ∷ b) ≡ false
      → Less (take rank (s ∷ b))
      → Greater (drop rank (s ∷ b))
      → Greater rest
  behind-Greater zero s [] rest h k l g = All-Greater s rest g.0 h.0
  behind-Greater (suc rank) s [] rest h k l g = absurd (not_less (compare s) k l.0)
    where
      not_less : (o : Ordering) → is_lt o ≡ false → o ≡ Ordering.lt → ⊥
      not_less o h e = cc
  behind-Greater zero s (t ∷ b) rest h k l g = behind-Greater zero t b rest h.1 k tt g.1
  behind-Greater (suc rank) s (t ∷ b) rest h k l g = behind-Greater rank t b rest h.1 k l.1 g

  here_found :
      (s : ℕ) (b rest : List ℕ) (f : Found)
      → IsSearchable compare ((s ∷ b) ++ rest)
      → ends_below compare (s ∷ b) ≡ false
      → IsFound compare (s ∷ b) f
      → IsFound compare ((s ∷ b) ++ rest) f
  here_found s b rest (found rank) h k (slot, (at, e)) =
      (slot, (get_some (s ∷ b) rest rank slot at, e))
    where
      get_some : (l m : List ℕ) (i v : ℕ) → get_elem? l i ≡ some v → get_elem? (l ++ m) i ≡ some v
      get_some [] m i v h = cc
      get_some (a ∷ l) m zero v h = h
      get_some (a ∷ l) m (suc i) v h = get_some l m i v h
  here_found s b rest (missing rank) h k (le, (l, g)) = (
    omega (arith, length-append (s ∷ b) rest),
    (
      rw (take-append rank (s ∷ b) rest le) l,
      rw (drop-append rank (s ∷ b) rest le) (
          All-both (λ t. compare t ≡ Ordering.gt) (drop rank (s ∷ b)) rest g
            (behind-Greater rank s b rest h k l g)),
    ),
  )

  there_found :
      (b rest : List ℕ) (f : Found)
      → Less b
      → IsFound compare rest f
      → IsFound compare (b ++ rest) (shifted (length b) f)
  there_found b rest (found rank) l (slot, (at, e)) =
      let back : length b + rank - length b ≡ rank = omega arith in
      (
        slot,
        (
          get-append_above b rest (length b + rank) (omega arith) ∙ (ap (get_elem? rest) back ∙ at),
          e,
        ),
      )
  there_found b rest (missing rank) l (le, (less, g)) =
      let back : length b + rank - length b ≡ rank = omega arith in
      (
        omega (arith, length-append b rest),
        (
          rw (take-append_beyond (length b + rank) b rest (omega arith), back)
              (All-both (λ t. compare t ≡ Ordering.lt) b (take rank rest) l less),
          rw (drop-append_beyond (length b + rank) b rest (omega arith), back) g,
        ),
      )

shifted-shifted : (m n : ℕ) (f : Found) → shifted (m + n) f ≡ shifted m (shifted n f)
shifted-shifted m n (found rank) = ap found (omega arith)
shifted-shifted m n (missing rank) = ap missing (omega arith)

shifted-zero : (f : Found) → shifted 0 f ≡ f
shifted-zero (found rank) = ap found (omega arith)
shifted-zero (missing rank) = ap missing (omega arith)

start-from_blocks :
    (blocks : List (List ℕ)) (block : ℕ)
    → start (from_blocks blocks) block ≡ start_from 0 blocks block
unfolding start from_blocks
start-from_blocks blocks zero = refl
start-from_blocks blocks (suc block) = refl

module _ (x : Searcher) (compare : ℕ → Ordering) where
  -- The search where the blocks begin at `base`.
  abbrev search_from : ℕ → ℕ → List (List ℕ) → Option Found
  search_from end base blocks =
      let block = partition_point (ends_below compare) blocks in
      search_leaf x compare end (start_from base blocks block) (get_elem? blocks block)

  spread :
      (end base : ℕ) (blocks : List (List ℕ))
      → All (λ b. 0 < length b) blocks
      → IsSearchable compare (flatten blocks)
      → end ≡ base + length (flatten blocks)
      → (f : Found) × ((search_from end base blocks ≡ some (shifted base f))
          × IsFound compare (flatten blocks) f)
  unfolding flatten
  spread end base [] full h e = (missing 0, (ap (λ n. some (missing n)) e, (omega arith, (tt, tt))))
  spread end base ([] ∷ blocks) full h e = absurd (omega (arith, full.0))
  spread end base ((s ∷ b) ∷ blocks) full h e = elim (Bool-cases (ends_below compare (s ∷ b))) [
    | inl below ↦
        let n = length (s ∷ b) in
        let sorted = front-IsSearchable compare (s ∷ b) (flatten blocks) h in
        let (f, (result, finds)) =
          spread end (base + n) blocks full.1
            (behind-IsSearchable compare (s ∷ b) (flatten blocks) h)
            (omega (arith, length-append (s ∷ b) (flatten blocks))) in
        let block = partition_point (ends_below compare) blocks in
        (
          shifted n f,
          (
            rw (below, start_shift base (s ∷ b) blocks block)
                (result ∙ ap some (shifted-shifted base n f)),
            there_found compare (s ∷ b) (flatten blocks) f
                (ends_below-Less compare (s ∷ b) sorted below) finds,
          ),
        )
    | inr above ↦
        let f = x.search compare (s ∷ b) in
        (
          f,
          (
            rw above refl,
            here_found compare s b (flatten blocks) f h above (
                x.search_finds compare (s ∷ b)
                  (front-IsSearchable compare (s ∷ b) (flatten blocks) h)),
          ),
        )
  ]

  -- In an order of blocks that are not empty, in which the slots less than what is searched come
  -- first and the greater ones last, the search does not panic; a rank that it finds is that of an
  -- equal slot, and a rank that it misses at has all slots before it less, and all from it on greater.
  pub binary_search_by-IsFound :
      (blocks : List (List ℕ))
      → All (λ b. 0 < length b) blocks
      → IsSearchable compare (iter (from_blocks blocks))
      → (f : Found) × ((binary_search_by x (from_blocks blocks) compare ≡ some f)
          × IsFound compare (iter (from_blocks blocks)) f)
  unfolding binary_search_by from_blocks iter start
  binary_search_by-IsFound blocks full h =
      let block = partition_point (ends_below compare) blocks in
      let (f, (result, finds)) =
        spread (len (from_blocks blocks)) 0 blocks full h (len-from_blocks blocks ∙ omega arith) in
      let whole : shifted 0 f ≡ f = shifted-zero f in
      (
        f,
        (
          ap (λ o. search_leaf x compare (len (from_blocks blocks)) o (get_elem? blocks block))
                (start-from_blocks blocks block)
              ∙ (result ∙ ap some whole),
          finds,
        ),
      )
