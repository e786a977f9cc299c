-- ===== src/BitmapBuilder/Examples.antt =====
-- Tests of core/src/bitmap_builder.rs.
use apfsearch.Prelude.{ℕ, ◌≡◌, List, [], ◌∷◌}
use apfsearch.Roaring.Listed.{listed, contains}
use apfsearch.BitmapBuilder.{default, finish, insert_all}
use apfsearch.BitmapBuilder.Exact.{member, contains-finish-insert_all}

abbrev slots : List ℕ
slots = 3 ∷ 4 ∷ 5 ∷ 9 ∷ 4 ∷ []

contains-finish-insert_all_example :
    contains (finish listed (insert_all listed (default listed) slots)) 4 ≡ member 4 slots
contains-finish-insert_all_example = contains-finish-insert_all listed slots 4
