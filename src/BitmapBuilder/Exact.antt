-- ===== src/BitmapBuilder/Exact.antt =====
-- The bitmap that a builder of core/src/bitmap_builder.rs returns holds the inserted slots.
use apfsearch.Prelude.{
  ℕ, ◌≤◌, ◌≡◌, refl, Bool, true, false, ◌&&◌, ◌||◌, Option, none, some, List, [], ◌∷◌, leb, ◌==◌,
  arith, checked_succ,
}
use apfsearch.Roaring.{Roaring}
use apfsearch.BitmapBuilder.{
  RunBitmapBuilder, default, flush_run, flush, insert_after, insert, finish, insert_all, extends,
}

abbrev pub member : ℕ → List ℕ → Bool
member x [] = false
member x (slot ∷ slots) = (slot == x) || member x slots

abbrev in_run : Option (ℕ × ℕ) → ℕ → Bool
in_run none x = false
in_run (some (start, end)) x = leb start x && leb x end

abbrev IsRun : Option (ℕ × ℕ) → Type 0
IsRun none = Unit {0}
IsRun (some (start, end)) = start ≤ end

-- A slot may be appended to a run that ends just before it.
run_step :
    (start end slot x : ℕ)
    → start ≤ end
    → extends (checked_succ end) slot ≡ true
    → (start ≤ slot)
      × (in_run (some (start, slot)) x ≡ ((slot == x) || in_run (some (start, end)) x))
run_step start end slot x le ext = ground arith

module _ (r : Roaring) where
  contains-flush :
      (b : RunBitmapBuilder r) (x : ℕ)
      → r.contains (flush r b).bitmap x ≡ (in_run b.pending x || r.contains b.bitmap x)
  unfolding flush
  contains-flush b x = contains_run b.pending
    where
      contains_run :
          (p : Option (ℕ × ℕ))
          → r.contains (flush_run r b.bitmap p) x ≡ (in_run p x || r.contains b.bitmap x)
      contains_run none = refl
      contains_run (some (start, end)) =
          ground (
            arith,
            r.contains-insert b.bitmap start x,
            r.contains-insert_range b.bitmap start end x,
          )

  -- What a builder holds so far, the pending run included.
  holds : RunBitmapBuilder r → ℕ → Bool
  holds b x = in_run b.pending x || r.contains b.bitmap x

  insert_lem :
      (b : RunBitmapBuilder r) (slot x : ℕ)
      → IsRun b.pending
      → IsRun (insert r b slot).pending × (holds (insert r b slot) x ≡ ((slot == x) || holds b x))
  unfolding insert holds
  insert_lem b slot x = after b.pending (contains-flush b x)
    where
      after :
          (p : Option (ℕ × ℕ))
          → r.contains (flush r b).bitmap x ≡ (in_run p x || r.contains b.bitmap x)
          → IsRun p
          → IsRun (insert_after r b p slot).pending
            × ((in_run (insert_after r b p slot).pending x
                  || r.contains (insert_after r b p slot).bitmap x)
                ≡ ((slot == x) || (in_run p x || r.contains b.bitmap x)))
      after none e run = ground arith
      after (some (start, end)) e run = ground (arith, run_step start end slot x run)

  holds-insert_all :
      (b : RunBitmapBuilder r) (slots : List ℕ) (x : ℕ)
      → IsRun b.pending
      → r.contains (finish r (insert_all r b slots)) x ≡ (member x slots || holds b x)
  unfolding insert_all finish holds
  holds-insert_all b [] x run = contains-flush b x
  holds-insert_all b (slot ∷ slots) x run =
      ground (arith, insert_lem b slot x run, holds-insert_all (insert r b slot) slots x)

  -- For every sequence of inserted slots, in any order and with repetitions, the finished bitmap
  -- contains a slot exactly when that slot was inserted.
  pub contains-finish-insert_all :
      (slots : List ℕ) (x : ℕ)
      → r.contains (finish r (insert_all r (default r) slots)) x ≡ member x slots
  unfolding holds
  contains-finish-insert_all slots x =
      ground (arith, holds-insert_all (default r) slots x tt, r.contains-new x)
