-- ===== src/SlotOrder/Search/Examples.antt =====
-- Tests of `SlotOrder::binary_search_by`.
use apfsearch.Prelude.{
  ℕ, suc, ◌+◌, ◌≡◌, refl, some, List, [], ◌∷◌, Ordering, compare, arith, flatten,
}
use apfsearch.SlotOrder.{from_blocks, iter, start, last_end, ends_from}
use apfsearch.SlotOrder.Search.{
  Found, found, missing, IsSearchable, IsFound, Searcher, shifted, binary_search_by,
}
use apfsearch.SlotOrder.Search.Spread.{All-Greater, binary_search_by-IsFound}

-- A search from the front.
abbrev scan : (ℕ → Ordering) → List ℕ → Found
scan compare [] = missing 0
scan compare (s ∷ slots) = elim (compare s) [
  | Ordering.lt ↦ shifted 1 (scan compare slots)
  | Ordering.eq ↦ found 0
  | Ordering.gt ↦ missing 0
]

next_found :
    (compare : ℕ → Ordering) (s : ℕ) (slots : List ℕ) (f : Found)
    → compare s ≡ Ordering.lt
    → IsFound compare slots f
    → IsFound compare (s ∷ slots) (shifted 1 f)
next_found compare s slots (found rank) e (slot, (at, same)) =
    let next : 1 + rank ≡ suc rank = omega arith in (slot, (rw next at, same))
next_found compare s slots (missing rank) e (le, (less, greater)) =
    let next : 1 + rank ≡ suc rank = omega arith in rw next (omega arith, ((e, less), greater))

scan_finds :
    (compare : ℕ → Ordering) (slots : List ℕ)
    → IsSearchable compare slots
    → IsFound compare slots (scan compare slots)
scan_finds compare [] h = (omega arith, (tt, tt))
scan_finds compare (s ∷ slots) h = at (compare s) refl (scan_finds compare slots h.1)
  where
    at :
        (o : Ordering)
        → compare s ≡ o
        → IsFound compare slots (scan compare slots)
        → IsFound compare (s ∷ slots) (elim o [
          | Ordering.lt ↦ shifted 1 (scan compare slots)
          | Ordering.eq ↦ found 0
          | Ordering.gt ↦ missing 0
        ])
    at Ordering.lt e f = next_found compare s slots (scan compare slots) e f
    at Ordering.eq e f = (s, (refl, e))
    at Ordering.gt e f = (omega arith, (tt, (e, All-Greater compare s slots e h.0)))

abbrev scanner : Searcher
scanner = record { search = scan; search_finds = scan_finds }

abbrev blocks : List (List ℕ)
blocks = (1 ∷ 3 ∷ []) ∷ (4 ∷ []) ∷ (7 ∷ 9 ∷ []) ∷ []

abbrev with_six : ℕ → Ordering
with_six slot = compare slot 6

six_missing : binary_search_by scanner (from_blocks blocks) with_six ≡ some (missing 3)
unfolding binary_search_by from_blocks start last_end ends_from
six_missing = refl

binary_search_by-IsFound_example :
    (f : Found) × ((binary_search_by scanner (from_blocks blocks) with_six ≡ some f)
      × IsFound with_six (iter (from_blocks blocks)) f)
unfolding iter from_blocks flatten
binary_search_by-IsFound_example =
    binary_search_by-IsFound scanner with_six blocks (omega arith, (omega arith, (omega arith, tt)))
      (ground arith)
