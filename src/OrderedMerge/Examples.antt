-- ===== src/OrderedMerge/Examples.antt =====
-- Tests of core/src/ordered_merge.rs.
use apfsearch.Prelude.{ℕ, ◌≡◌, refl, some, List, [], ◌∷◌, ◌++◌, compare, arith}
use mathlib.Core.List.{Perm}
use apfsearch.OrderedMerge.{insert_sorted, shift, positions}
use apfsearch.OrderedMerge.Order.{IsOrder, IsSorted, merge}
use apfsearch.OrderedMerge.Correct.{insert_sorted-eq-merge, insert_sorted_keeps}

compare-IsOrder : IsOrder compare
compare-IsOrder = record { trans = λ a b c h k. ground arith; total = λ a b h. ground arith }

abbrev old : List ℕ
old = 2 ∷ 4 ∷ 4 ∷ 9 ∷ []

abbrev new : List ℕ
new = 1 ∷ 4 ∷ 7 ∷ 12 ∷ []

insert_four : insert_sorted compare old new ≡ some (1 ∷ 2 ∷ 4 ∷ 4 ∷ 4 ∷ 7 ∷ 9 ∷ 12 ∷ [])
unfolding insert_sorted shift positions
insert_four = refl

old-IsSorted : IsSorted compare old
old-IsSorted = ground arith

new-IsSorted : IsSorted compare new
new-IsSorted = ground arith

insert_sorted-eq-merge_example : insert_sorted compare old new ≡ some (merge compare old new)
insert_sorted-eq-merge_example =
    insert_sorted-eq-merge compare compare-IsOrder old new old-IsSorted (omega arith)

insert_sorted_keeps_example :
    (merged : List ℕ) × (insert_sorted compare old new ≡ some merged)
    × IsSorted compare merged
    × Perm merged (old ++ new)
insert_sorted_keeps_example =
    insert_sorted_keeps compare compare-IsOrder old new old-IsSorted new-IsSorted (omega arith)
