-- ===== src/SlotOrder/Examples.antt =====
-- Tests of core/src/slot_order.rs.
use apfsearch.Prelude.{◌++◌, slice, flatten, arith, ℕ, ◌≡◌, refl, some, List, [], ◌∷◌, get_elem?}
use apfsearch.SlotOrder.Range.{extend_range-slice}
use apfsearch.SlotOrder.{extend_range, from_blocks, iter, get, ends_from}
use apfsearch.SlotOrder.Ranks.{get-from_blocks}

abbrev blocks : List (List ℕ)
blocks = (7 ∷ 3 ∷ []) ∷ (9 ∷ []) ∷ (1 ∷ 4 ∷ []) ∷ []

ends_of_three : ends_from 0 blocks ≡ 2 ∷ 3 ∷ 5 ∷ []
unfolding ends_from
ends_of_three = refl

get-from_blocks_example :
    get (from_blocks blocks) 3 ≡ some (get_elem? (iter (from_blocks blocks)) 3)
get-from_blocks_example = get-from_blocks blocks 3

extend_range-slice_example :
    extend_range (from_blocks blocks) (0 ∷ []) 1 4
    ≡ some ((0 ∷ []) ++ slice 1 4 (iter (from_blocks blocks)))
unfolding iter flatten from_blocks
extend_range-slice_example = extend_range-slice blocks (0 ∷ []) 1 4 (omega arith) (omega arith)
