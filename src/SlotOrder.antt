-- ===== src/SlotOrder.antt =====
-- core/src/slot_order.rs: the order of all slots, in leaves with a directory of their ends. A leaf
-- is the list of its slots; `none` is a panic. The updates are not modelled.
pub mod Ranks
pub mod Range
pub mod Search
mod Examples
use apfsearch.Prelude.{
  ℕ, zero, suc, ◌+◌, ◌-◌, Bool, true, false, Option, none, some, List, [], ◌∷◌, flatten, leb, ◌==◌,
  if◌then◌else◌, length, get_elem?, slice, min, ◌++◌, ◌&&◌, partition_point, ◌>>=◌,
}

pub record SlotOrder : Type 0 where
  pub blocks : List (List ℕ)
  pub ends : List ℕ

-- The running totals after each block.
pub ends_from : ℕ → List (List ℕ) → List ℕ
ends_from total [] = []
ends_from total (block ∷ blocks) = (total + length block) ∷ ends_from (total + length block) blocks

pub from_blocks : List (List ℕ) → SlotOrder
unfolding ends_from
from_blocks blocks = record { blocks = blocks; ends = ends_from 0 blocks }

-- `ends.last().copied().unwrap_or(0)`
pub last_end : List ℕ → ℕ
last_end [] = 0
last_end (end ∷ []) = end
last_end (end ∷ next ∷ ends) = last_end (next ∷ ends)

abbrev pub len : SlotOrder → ℕ
unfolding last_end
len order = last_end order.ends

pub start : SlotOrder → ℕ → Option ℕ
start order zero = some 0
start order (suc block) = get_elem? order.ends block

pub iter : SlotOrder → List ℕ
iter order = flatten order.blocks

-- The rank in a leaf: an index out of the leaf is a panic.
pub get_leaf : SlotOrder → ℕ → ℕ → Option (List ℕ) → Option (Option ℕ)
unfolding start
get_leaf order block rank none = some none
get_leaf order block rank (some leaf) =
    start order block >>= λ base. get_elem? leaf (rank - base) >>= λ slot. some (some slot)

pub get : SlotOrder → ℕ → Option (Option ℕ)
unfolding get_leaf
get order rank =
    let block = partition_point (λ end. leb end rank) order.ends in
    get_leaf order block rank (get_elem? order.blocks block)

-- `&values[start..end]`, which may panic
abbrev pub checked_slice : ℕ → ℕ → List ℕ → Option (List ℕ)
checked_slice start end values =
    if leb start end && leb end (length values) then some (slice start end values) else none

-- One turn: the loop ends at a block that starts at `end` or behind, else `further` goes on with
-- the part of the block that was put out.
pub extend_turn :
    Option ℕ → Option (List ℕ) → ℕ → ℕ → List ℕ → (List ℕ → Option (List ℕ)) → Option (List ℕ)
extend_turn none block start end output further = none
extend_turn (some base) block start end output further = elim (leb end base) [
  | true ↦ some output
  | false ↦ block >>= λ values.
      checked_slice (start - base) (min (length values) (end - base)) values >>= further
]

-- The turns of `for block in first..self.blocks.len()`.
pub extend_from : ℕ → SlotOrder → ℕ → ℕ → ℕ → List ℕ → Option (List ℕ)
unfolding start extend_turn
extend_from zero order block first_rank end output = some output
extend_from (suc turns) order block first_rank end output =
    extend_turn (start order block) (get_elem? order.blocks block) first_rank end output
      (λ part. extend_from turns order (block + 1) first_rank end (output ++ part))

pub extend_range : SlotOrder → List ℕ → ℕ → ℕ → Option (List ℕ)
unfolding extend_from
extend_range order output first_rank end =
    let first = partition_point (λ rank. leb rank first_rank) order.ends in
    if leb first_rank end && leb end (len order)
    then (if first_rank == end
        then some output
        else extend_from (length order.blocks - first) order first first_rank end output)
    else none
