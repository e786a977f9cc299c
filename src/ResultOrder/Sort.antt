-- ===== src/ResultOrder/Sort.antt =====
-- `sort_slots` of core/src/result_order.rs: bounded runs are sorted, and then merged in passes of
-- doubling width. The standard library's sort is a parameter.
pub mod Merged
pub mod Runs
pub mod Passes
pub mod Sorted
use apfsearch.Prelude.{
  ℕ, zero, suc, ◌+◌, ◌*◌, ◌%◌, Bool, true, false, Option, none, some, List, [], ◌∷◌, ◌++◌, Ordering,
  min, ltb, leb, ◌==◌, if◌then◌else◌, length, take, drop, usize_max,
}
use mathlib.Core.List.{Perm}
use apfsearch.Result.{Result, err, ok, cancelled, out_of_fuel, ◌>>=◌}
use apfsearch.OrderedMerge.{not_gt}
use apfsearch.OrderedMerge.Order.{IsOrder, IsSorted}

-- `sort_unstable_by`: a permutation, sorted if the comparison is a total preorder.
pub record Sorter : Type 0 where
  pub sort : (ℕ → ℕ → Ordering) → List ℕ → List ℕ
  pub perm : (compare : ℕ → ℕ → Ordering) (slots : List ℕ) → Perm (sort compare slots) slots
  pub sorted :
      (compare : ℕ → ℕ → Ordering) (slots : List ℕ)
      → IsOrder compare
      → IsSorted compare (sort compare slots)

abbrev pub run_length : ℕ
run_length = 1024

module _ (sorter : Sorter) (compare : ℕ → ℕ → Ordering) (flag : ℕ → Bool) where
  -- `if cancelled.load(…) { return Err(…) }`
  abbrev pub load : ℕ → Result ℕ
  load loads = if flag loads then err cancelled else ok (loads + 1)

  -- `for chunk in slots.chunks_mut(RUN)`; the length of the slots is fuel enough.
  pub sort_chunks : ℕ → ℕ → List ℕ → Result (ℕ × List ℕ)
  sort_chunks fuel loads [] = ok (loads, [])
  sort_chunks zero loads (s ∷ slots) = err out_of_fuel
  sort_chunks (suc fuel) loads (s ∷ slots) =
      let chunk = sorter.sort compare (take run_length (s ∷ slots)) in
      do
        next ← load loads
        rest ← sort_chunks fuel next (drop run_length (s ∷ slots))
        ok (rest.0, chunk ++ rest.1)

  -- What the next destination gets, and the slots of both runs that are left then. `none` is a read
  -- behind both runs.
  pub take_one : List ℕ → List ℕ → Option (ℕ × (List ℕ × List ℕ))
  take_one [] [] = none
  take_one [] (r ∷ right) = some (r, ([], right))
  take_one (l ∷ left) [] = some (l, (left, []))
  take_one (l ∷ left) (r ∷ right) =
      if not_gt compare l r then some (l, (left, r ∷ right)) else some (r, (l ∷ left, right))

  -- `for (position, destination) in scratch[start..end].iter_mut().enumerate()`: the first number
  -- is that of the destinations that are left.
  pub merge_runs : ℕ → ℕ → ℕ → List ℕ → List ℕ → Result (ℕ × List ℕ)
  unfolding take_one
  merge_runs zero position loads left right = ok (loads, [])
  merge_runs (suc count) position loads left right = do
    next ← if position % run_length == 0 then load loads else ok loads
    (elim (take_one left right) [
      | none ↦ err out_of_fuel
      | some (slot, (left, right)) ↦ do
        rest ← merge_runs count (position + 1) next left right
        ok (rest.0, slot ∷ rest.1)
    ])

  -- `for start in (0..slots.len()).step_by(width.saturating_mul(2))`
  pub merge_pass : ℕ → ℕ → ℕ → List ℕ → Result (ℕ × List ℕ)
  unfolding merge_runs
  merge_pass fuel width loads [] = ok (loads, [])
  merge_pass zero width loads (s ∷ slots) = err out_of_fuel
  merge_pass (suc fuel) width loads (s ∷ slots) =
      let left = take width (s ∷ slots) in
      let right = take width (drop width (s ∷ slots)) in
      do
        merged ← merge_runs (length left + length right) 0 loads left right
        rest ← merge_pass fuel width merged.0 (drop (min (width * 2) usize_max) (s ∷ slots))
        ok (rest.0, merged.1 ++ rest.1)

  -- `while width < slots.len()`: the width grows in each turn, so that the length of the slots is
  -- fuel enough.
  pub merge_passes : ℕ → ℕ → ℕ → List ℕ → Result (List ℕ)
  unfolding merge_pass
  merge_passes zero width loads slots =
      if ltb width (length slots) then err out_of_fuel else ok slots
  merge_passes (suc fuel) width loads slots = elim (ltb width (length slots)) [
    | true ↦ do
      pass ← merge_pass (length slots) width loads slots
      merge_passes fuel (min (width * 2) usize_max) pass.0 pass.1
    | false ↦ ok slots
  ]

  pub sort_slots : List ℕ → Result (List ℕ)
  unfolding sort_chunks merge_passes
  sort_slots slots = do
    chunks ← sort_chunks (length slots) 0 slots
    if leb (length slots) run_length
        then ok chunks.1
        else merge_passes (length slots) run_length chunks.0 chunks.1
