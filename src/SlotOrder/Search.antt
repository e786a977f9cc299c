-- ===== src/SlotOrder/Search.antt =====
-- `SlotOrder::binary_search_by` of core/src/slot_order.rs. The search in one leaf is the standard
-- library's, and a parameter.
pub mod Spread
mod Examples
use apfsearch.Prelude.{
  ℕ, ◌+◌, ◌≤◌, ◌≡◌, Bool, Option, none, some, List, [], ◌∷◌, ◌++◌, Ordering, length, get_elem?,
  take, drop, All, partition_point, holds_at, is_lt, ◌>>=◌,
}
use apfsearch.SlotOrder.{SlotOrder, len, start}

-- `Result<usize, usize>`
pub data Found : Type 0 where
  found missing : ℕ → Found

abbrev pub grade : Ordering → ℕ
grade Ordering.lt = 0
grade Ordering.eq = 1
grade Ordering.gt = 2

-- What is less comes first, and what is greater comes last.
abbrev pub IsSearchable : (ℕ → Ordering) → List ℕ → Type 0
IsSearchable compare [] = Unit {0}
IsSearchable compare (s ∷ slots) =
    All (λ t. grade (compare s) ≤ grade (compare t)) slots × IsSearchable compare slots

abbrev pub IsFound : (ℕ → Ordering) → List ℕ → Found → Type 0
IsFound compare slots (found rank) =
    (slot : ℕ) × ((get_elem? slots rank ≡ some slot) × (compare slot ≡ Ordering.eq))
IsFound compare slots (missing rank) =
    (rank ≤ length slots)
    × (All (λ s. compare s ≡ Ordering.lt) (take rank slots)
        × All (λ s. compare s ≡ Ordering.gt) (drop rank slots))

-- `binary_search_by` of a slice
pub record Searcher : Type 0 where
  pub search : (ℕ → Ordering) → List ℕ → Found
  pub search_finds :
      (compare : ℕ → Ordering) (slots : List ℕ)
      → IsSearchable compare slots
      → IsFound compare slots (search compare slots)

-- `.map(|rank| base + rank).map_err(|rank| base + rank)`
abbrev pub shifted : ℕ → Found → Found
shifted base (found rank) = found (base + rank)
shifted base (missing rank) = missing (base + rank)

abbrev pub last_slot : List ℕ → Option ℕ
last_slot [] = none
last_slot (s ∷ []) = some s
last_slot (s ∷ t ∷ slots) = last_slot (t ∷ slots)

-- `compare(leaf.slots.values().last().unwrap()).is_lt()`; no leaf of an order is empty.
abbrev pub ends_below : (ℕ → Ordering) → List ℕ → Bool
ends_below compare leaf = holds_at (λ s. is_lt (compare s)) (last_slot leaf)

-- The search in the block, if there is one, that begins at a rank; `end` is the length of the order.
abbrev pub search_leaf : Searcher → (ℕ → Ordering) → ℕ → Option ℕ → Option (List ℕ) → Option Found
search_leaf x compare end base none = some (missing end)
search_leaf x compare end base (some leaf) =
    base >>= λ first. some (shifted first (x.search compare leaf))

pub binary_search_by : Searcher → SlotOrder → (ℕ → Ordering) → Option Found
binary_search_by x order compare =
    let block = partition_point (ends_below compare) order.blocks in
    search_leaf x compare (len order) (start order block) (get_elem? order.blocks block)
