-- ===== src/OrderedMerge.antt =====
-- core/src/ordered_merge.rs: a sorted delta is put into a sorted vector of slots in place.
-- `none` is a panic: a copy or a write out of range.
pub mod Order
pub mod Locate
pub mod Shift
pub mod Correct
mod Examples
use apfsearch.Prelude.{
  ℕ, zero, suc, ◌+◌, ◌-◌, ◌*◌, Bool, true, false, ◌&&◌, Option, none, some, List, [], ◌∷◌, ◌++◌,
  Ordering, min, ltb, leb, if◌then◌else◌, length, get_elem?, set, take, drop, replicate, usize_max,
  partition_point, slice, holds_at, is_gt, not, ◌>>=◌,
}

-- `saturating_mul(2)`, then `saturating_add(1)`, on `usize`
abbrev pub next_probe : ℕ → ℕ
next_probe high = min (min (high * 2) usize_max + 1) usize_max

-- `slots.copy_within(start..end, dest)`
pub copy_within : List ℕ → ℕ → ℕ → ℕ → Option (List ℕ)
copy_within slots start end dest =
    if leb start end && leb end (length slots) && leb (dest + (end - start)) (length slots)
    then some (take dest slots ++ (slice start end slots ++ drop (dest + (end - start)) slots))
    else none

-- `slots[index] = value`
pub write : List ℕ → ℕ → ℕ → Option (List ℕ)
write slots index value = if ltb index (length slots) then some (set slots index value) else none

-- One turn of the reverse loop: move the run behind the insertion point, and write the new slot.
pub shift_one : ℕ → ℕ → ℕ → List ℕ × ℕ → Option (List ℕ × ℕ)
unfolding copy_within write
shift_one index start value (slots, end) = do
  moved ← copy_within slots start end (start + index + 1)
  written ← write moved (start + index) value
  some (written, start)

-- `for index in (0..replacements.len()).rev()`: the later indices come first. `positions` has one
-- entry for each replacement.
pub shift : ℕ → List ℕ → List ℕ → List ℕ × ℕ → Option (List ℕ × ℕ)
unfolding shift_one
shift index (start ∷ positions) (value ∷ replacements) state = do
  later ← shift (index + 1) positions replacements state
  shift_one index start value later
shift index _ _ state = some state

module _ (compare : ℕ → ℕ → Ordering) where
  -- `!compare(a, b).is_gt()`
  abbrev pub not_gt : ℕ → ℕ → Bool
  not_gt a b = not (is_gt (compare a b))

  -- The probes 0, 1, 3, 7, …: the loop keeps `low` and `high`. The fuel is the length of the
  -- slice, and each turn raises `low`.
  pub gallop : ℕ → List ℕ → ℕ → ℕ → ℕ → ℕ × ℕ
  gallop zero remaining replacement low high = (low, high)
  gallop (suc fuel) remaining replacement low high =
      let further = gallop fuel remaining replacement (high + 1) (next_probe high) in
      if ltb high (length remaining)
        && holds_at (λ slot. not_gt slot replacement) (get_elem? remaining high)
      then further
      else (low, high)

  -- The distance from the cursor to the insertion point.
  pub locate : List ℕ → ℕ → ℕ
  unfolding gallop
  locate remaining replacement =
      let (low, high) = gallop (length remaining) remaining replacement 0 0 in
      let end = min high (length remaining) in
      low + partition_point (λ slot. not_gt slot replacement) (slice low end remaining)

  pub positions : List ℕ → ℕ → List ℕ → List ℕ
  unfolding locate
  positions slots cursor [] = []
  positions slots cursor (replacement ∷ replacements) =
      let next = cursor + locate (drop cursor slots) replacement in
      next ∷ positions slots next replacements

  pub insert_sorted : List ℕ → List ℕ → Option (List ℕ)
  insert_sorted slots [] = some slots
  insert_sorted slots replacements =
      let resized = slots ++ replicate (length replacements) 0 in
      do
        done ← shift 0 (positions slots 0 replacements) replacements (resized, length slots)
        some done.0
