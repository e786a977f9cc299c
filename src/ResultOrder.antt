-- ===== src/ResultOrder.antt =====
-- core/src/result_order.rs: the orders that results are sorted by, and the cancellable sort. A load
-- of the flag `cancelled` is answered by a function of the number of the load, and the count of
-- loads is passed along. On an error the callers drop the slots.
pub mod Sort
pub mod Lawful
pub mod Changed
mod Examples
use apfsearch.Prelude.{
  ℕ, zero, suc, ◌+◌, ◌*◌, ◌%◌, Bool, true, false, not, ◌&&◌, ◌||◌, Option, none, some, List, [],
  ◌∷◌, ◌++◌, Ordering, compare, min, ltb, leb, ◌==◌, if◌then◌else◌, length, take, drop, usize_max,
}
use apfsearch.Integer.{ℤ}
use apfsearch.Text.{text_eq, as_bytes}
use apfsearch.External.{External}
use apfsearch.Query.Ast.{FileEntry}
use apfsearch.Result.{Result, err, ok, Error, cancelled, out_of_fuel, ◌>>=◌}
use apfsearch.Compare.{reverse, then_with, int_cmp, bool_cmp}
use apfsearch.NaturalOrder.{natural_cmp_folded, view_natural_cmp}
use apfsearch.TextOrder.{str_cmp, view_cmp, view_eq, is_eq}
use apfsearch.OrderedMerge.{not_gt}

pub data SortField : Type 0 where
  by_name by_path by_extension by_size by_modified by_created by_directory : SortField

abbrev pub ResultOrder : Type 0
ResultOrder = List (SortField × Bool)

abbrev name_order : ResultOrder
name_order = (by_name, true) ∷ []

abbrev path_order : ResultOrder
path_order = (by_path, true) ∷ []

abbrev is_path : SortField → Bool
is_path by_path = true
is_path _ = false

abbrev primary_path_direction : ResultOrder → Option Bool
primary_path_direction [] = none
primary_path_direction ((field, ascending) ∷ order) = if is_path field then some ascending else none

abbrev int_eq : ℤ → ℤ → Bool
int_eq a b = is_eq (int_cmp a b)

module _ (x : External) where
  abbrev pub field_cmp : SortField → FileEntry x → FileEntry x → Ordering
  field_cmp by_name a b = natural_cmp_folded (as_bytes a.folded_name) (as_bytes b.folded_name)
  field_cmp by_path a b = view_natural_cmp a.folded_path b.folded_path
  field_cmp by_extension a b = str_cmp (as_bytes a.extension) (as_bytes b.extension)
  field_cmp by_size a b = compare a.size b.size
  field_cmp by_modified a b = int_cmp a.modified b.modified
  field_cmp by_created a b = int_cmp a.created b.created
  field_cmp by_directory a b = bool_cmp a.is_dir b.is_dir

  -- `ResultOrder::compare`: the loop over the fields leaves at the first that differs.
  unfoldable pub result_cmp : ResultOrder → FileEntry x → FileEntry x → Ordering
  result_cmp [] a b = then_with (view_cmp a.path b.path) (int_cmp a.id b.id)
  result_cmp ((field, ascending) ∷ order) a b =
      let found = field_cmp field a b in
      let further = result_cmp order a b in
      if not (is_eq found) then (if ascending then found else reverse found) else further

  abbrev pub field_affected : SortField → FileEntry x → FileEntry x → Bool
  field_affected by_name previous current = not (text_eq previous.name current.name)
  field_affected by_path previous current = false
  field_affected by_extension previous current = not (text_eq previous.extension current.extension)
  field_affected by_size previous current = not (previous.size == current.size)
  field_affected by_modified previous current = not (int_eq previous.modified current.modified)
  field_affected by_created previous current = not (int_eq previous.created current.created)
  field_affected by_directory previous current =
      not (is_eq (bool_cmp previous.is_dir current.is_dir))

  abbrev pub some_affected : ResultOrder → FileEntry x → FileEntry x → Bool
  some_affected [] previous current = false
  some_affected ((field, _) ∷ order) previous current =
      field_affected field previous current || some_affected order previous current

  pub affected_by_change : ResultOrder → FileEntry x → FileEntry x → Bool
  affected_by_change order previous current =
      if not (view_eq previous.path current.path) || not (int_eq previous.id current.id)
      then true
      else some_affected order previous current
