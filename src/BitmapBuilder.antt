-- ===== src/BitmapBuilder.antt =====
-- core/src/bitmap_builder.rs: consecutive matches are streamed into ranges.
pub mod Exact
mod Examples
use apfsearch.Prelude.{
  ℕ, Bool, true, false, Option, none, some, List, [], ◌∷◌, ◌==◌, if◌then◌else◌, checked_succ,
}
use apfsearch.Roaring.{Roaring}

abbrev extends : Option ℕ → ℕ → Bool
extends none slot = false
extends (some next) slot = next == slot

module _ (r : Roaring) where
  open r use {Bitmap}

  pub record RunBitmapBuilder : Type 0 where
    pub bitmap : Bitmap
    pub pending : Option (ℕ × ℕ)

  abbrev pub default : RunBitmapBuilder
  default = record { bitmap = r.new; pending = none }

  flush_run : Bitmap → Option (ℕ × ℕ) → Bitmap
  flush_run bitmap none = bitmap
  flush_run bitmap (some (start, end)) =
      if start == end then r.insert bitmap start else r.insert_range bitmap start end

  pub flush : RunBitmapBuilder → RunBitmapBuilder
  unfolding flush_run
  flush b = record { bitmap = flush_run b.bitmap b.pending; pending = none }

  -- The early return extends the pending run in place.
  insert_after : RunBitmapBuilder → Option (ℕ × ℕ) → ℕ → RunBitmapBuilder
  insert_after b none slot = record (flush b) { pending = some (slot, slot) }
  insert_after b (some (start, end)) slot =
      if extends (checked_succ end) slot
      then record b { pending = some (start, slot) }
      else record (flush b) { pending = some (slot, slot) }

  pub insert : RunBitmapBuilder → ℕ → RunBitmapBuilder
  unfolding insert_after
  insert b slot = insert_after b b.pending slot

  pub finish : RunBitmapBuilder → Bitmap
  finish b = (flush b).bitmap

  -- The callers' loop: every matching slot is inserted, in the order of the scan.
  pub insert_all : RunBitmapBuilder → List ℕ → RunBitmapBuilder
  insert_all b [] = b
  insert_all b (slot ∷ slots) = insert_all (insert b slot) slots
