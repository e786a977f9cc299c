-- ===== src/OrderedMerge/Correct.antt =====
-- `insert_sorted` of core/src/ordered_merge.rs is a merge.
use apfsearch.Prelude.{
  ℕ, ◌+◌, ◌-◌, ◌≤◌, ◌<◌, ◌≡◌, refl, ap, sym, List, [], ◌∷◌, ◌++◌, length, drop, arith, some,
  replicate, Ordering, length-drop, length-replicate, drop-drop, partition_point,
}
use mathlib.Core.List.{Perm}
use apfsearch.OrderedMerge.{not_gt, locate, positions, insert_sorted}
use apfsearch.OrderedMerge.Order.{IsOrder, IsSorted, merge, merge-perm, merge-IsSorted}
use apfsearch.OrderedMerge.Locate.{partition_point-le, locate_lem, IsSorted-drop, merge-cut}
use apfsearch.OrderedMerge.Shift.{weave, IsPlan, shift-eq-weave}

module _ (compare : ℕ → ℕ → Ordering) (o : IsOrder compare) where
  merge-nil : (old : List ℕ) → merge compare old [] ≡ old
  unfolding merge
  merge-nil [] = refl
  merge-nil (x ∷ old) = refl

  locate-le :
      (xs : List ℕ) (cursor r : ℕ)
      → IsSorted compare xs
      → length xs < 9223372036854775808
      → locate compare (drop cursor xs) r
        ≡ partition_point (λ slot. not_gt compare slot r) (drop cursor xs)
  locate-le xs cursor r s small =
      locate_lem compare o (drop cursor xs) r (IsSorted-drop compare o cursor xs s)
        (omega (arith, length-drop cursor xs))

  positions-IsPlan :
      (xs : List ℕ) (cursor : ℕ) (rs : List ℕ)
      → IsSorted compare xs
      → length xs < 9223372036854775808
      → cursor ≤ length xs
      → IsPlan cursor (length xs) (positions compare xs cursor rs) rs
  unfolding positions
  positions-IsPlan xs cursor [] s small le = le
  positions-IsPlan xs cursor (r ∷ rs) s small le =
      let p = λ (slot : ℕ). not_gt compare slot r in
      let at : cursor + locate compare (drop cursor xs) r ≤ length xs = omega (
        arith,
        locate-le xs cursor r s small,
        partition_point-le p (drop cursor xs),
        length-drop cursor xs,
      ) in
      (omega arith, positions-IsPlan xs (cursor + locate compare (drop cursor xs) r) rs s small at)

  weave-positions :
      (xs : List ℕ) (cursor : ℕ) (rs : List ℕ)
      → IsSorted compare xs
      → length xs < 9223372036854775808
      → weave cursor (drop cursor xs) (positions compare xs cursor rs) rs
        ≡ merge compare (drop cursor xs) rs
  unfolding positions weave
  weave-positions xs cursor [] s small = sym (merge-nil (drop cursor xs))
  weave-positions xs cursor (r ∷ rs) s small =
      let n = locate compare (drop cursor xs) r in
      let m = partition_point (λ slot. not_gt compare slot r) (drop cursor xs) in
      let gap : cursor + n - cursor ≡ n = omega arith in
      let rest : drop n (drop cursor xs) ≡ drop (cursor + n) xs =
        drop-drop n cursor (cursor + n) xs (omega arith) in
      rw (gap, rest, weave-positions xs (cursor + n) rs s small, ← rest)
        (rw (locate-le xs cursor r s small) (sym (merge-cut compare (drop cursor xs) r rs)))

  -- For a comparison that is a total preorder and a sorted vector of fewer than 2^63 slots,
  -- `insert_sorted` does not panic and leaves the stable merge of the old slots and the new ones,
  -- in which an old slot stands before a new one with an equal key.
  pub insert_sorted-eq-merge :
      (xs rs : List ℕ)
      → IsSorted compare xs
      → length xs < 9223372036854775808
      → insert_sorted compare xs rs ≡ some (merge compare xs rs)
  unfolding insert_sorted
  insert_sorted-eq-merge xs [] s small = ap some (sym (merge-nil xs))
  insert_sorted-eq-merge xs (r ∷ rs) s small =
      let ps = positions compare xs 0 (r ∷ rs) in
      let (rest, done) =
        shift-eq-weave ps (r ∷ rs) xs (replicate (length (r ∷ rs)) 0)
          (length-replicate (length (r ∷ rs)) 0)
          (positions-IsPlan xs 0 (r ∷ rs) s small (omega arith)) in
      rw done (ap some (weave-positions xs 0 (r ∷ rs) s small))

  -- The merged vector is sorted, and holds each old and each new slot as often as the two inputs.
  pub insert_sorted_keeps :
      (xs rs : List ℕ)
      → IsSorted compare xs
      → IsSorted compare rs
      → length xs < 9223372036854775808
      → (merged : List ℕ) × (insert_sorted compare xs rs ≡ some merged)
        × IsSorted compare merged
        × Perm merged (xs ++ rs)
  insert_sorted_keeps xs rs s t small = (
    merge compare xs rs,
    insert_sorted-eq-merge xs rs s small,
    merge-IsSorted compare o xs rs s t,
    merge-perm compare xs rs,
  )
