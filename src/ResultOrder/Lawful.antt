-- ===== src/ResultOrder/Lawful.antt =====
-- The order of results is a lawful comparison, under which only rows of one path and one id are
-- equal.
use apfsearch.Prelude.{
  ℕ, ◌≤◌, ◌≡◌, refl, sym, Bool, true, false, not, List, [], ◌∷◌, Ordering, if◌then◌else◌, arith,
  length, usize_max,
}
use mathlib.Core.List.{Perm}
use apfsearch.Text.{as_bytes}
use apfsearch.External.{External}
use apfsearch.Query.Ast.{FileEntry}
use apfsearch.Result.{ok}
use apfsearch.Compare.{reverse, then_with}
use apfsearch.Compare.Lawful.{
  IsLawful, key-IsLawful, reverse-IsLawful, then_with-IsLawful, same_right, agree-IsLawful,
}
use apfsearch.Compare.Numbers.{compare-IsLawful, int-IsLawful, bool-IsLawful}
use apfsearch.NaturalOrder.Reference.{natural_cmp_folded-IsLawful}
use apfsearch.NaturalOrder.View.{view_natural_cmp-IsLawful}
use apfsearch.TextOrder.{is_eq}
use apfsearch.TextOrder.Spans.{str_cmp-IsLawful, view_cmp-IsLawful}
use apfsearch.OrderedMerge.Order.{IsOrder, IsSorted}
use apfsearch.ResultOrder.{
  SortField, by_name, by_path, by_extension, by_size, by_modified, by_created, by_directory,
  ResultOrder, field_cmp, result_cmp,
}
use apfsearch.ResultOrder.Sort.{Sorter, sort_slots}
use apfsearch.ResultOrder.Sort.Sorted.{sort_slots-returns}

forth : (o p : Ordering) → (if not (is_eq o) then o else p) ≡ then_with o p
forth Ordering.lt p = refl
forth Ordering.eq p = refl
forth Ordering.gt p = refl

back : (o p : Ordering) → (if not (is_eq o) then reverse o else p) ≡ then_with (reverse o) p
back Ordering.lt p = refl
back Ordering.eq p = refl
back Ordering.gt p = refl

-- A lawful comparison of the rows of slots sorts the slots.
pub lawful-IsOrder {ℓ} :
    {A : Type ℓ} {cmp : A → A → Ordering} (l : IsLawful cmp) (row : ℕ → A)
    → IsOrder (λ i j. cmp (row i) (row j))
lawful-IsOrder l row = record {
  trans = λ a b c h k. ground (
    arith,
    l.trans (row a) (row b) (row c),
    l.same (row a) (row b) (row c),
    same_right l (row a) (row b) (row c),
  );
  total = λ a b h. ground (arith, l.swap (row a) (row b));
}

module _ (x : External) where
  field-IsLawful : (field : SortField) → IsLawful (field_cmp x field)
  field-IsLawful by_name =
      key-IsLawful natural_cmp_folded-IsLawful (λ (row : FileEntry x). as_bytes row.folded_name)
  field-IsLawful by_path =
      key-IsLawful view_natural_cmp-IsLawful (λ (row : FileEntry x). row.folded_path)
  field-IsLawful by_extension =
      key-IsLawful str_cmp-IsLawful (λ (row : FileEntry x). as_bytes row.extension)
  field-IsLawful by_size = key-IsLawful compare-IsLawful (λ (row : FileEntry x). row.size)
  field-IsLawful by_modified = key-IsLawful int-IsLawful (λ (row : FileEntry x). row.modified)
  field-IsLawful by_created = key-IsLawful int-IsLawful (λ (row : FileEntry x). row.created)
  field-IsLawful by_directory = key-IsLawful bool-IsLawful (λ (row : FileEntry x). row.is_dir)

  -- For every list of sort fields and directions, `ResultOrder::compare` is a total preorder of the
  -- rows.
  pub result_cmp-IsLawful : (order : ResultOrder) → IsLawful (result_cmp x order)
  unfolding result_cmp
  result_cmp-IsLawful [] =
      then_with-IsLawful (key-IsLawful view_cmp-IsLawful (λ (row : FileEntry x). row.path))
        (key-IsLawful int-IsLawful (λ (row : FileEntry x). row.id))
  result_cmp-IsLawful ((field, true) ∷ order) =
      agree-IsLawful (λ a b. sym (forth (field_cmp x field a b) (result_cmp x order a b)))
        (then_with-IsLawful (field-IsLawful field) (result_cmp-IsLawful order))
  result_cmp-IsLawful ((field, false) ∷ order) =
      agree-IsLawful (λ a b. sym (back (field_cmp x field a b) (result_cmp x order a b)))
        (then_with-IsLawful (reverse-IsLawful (field-IsLawful field)) (result_cmp-IsLawful order))

  -- For every result order and every table of rows, `sort_slots` with `ResultOrder::compare` returns
  -- the slots sorted by that order, while the flag is not set and the number of slots is a `usize`.
  pub sort_slots-result_cmp :
      (sorter : Sorter) (order : ResultOrder) (row : ℕ → FileEntry x) (flag : ℕ → Bool)
      (slots : List ℕ)
      → ((loads : ℕ) → flag loads ≡ false)
      → length slots ≤ usize_max
      → (s : List ℕ) × ((sort_slots sorter (λ i j. result_cmp x order (row i) (row j)) flag slots
            ≡ ok s)
          × (Perm s slots × IsSorted (λ i j. result_cmp x order (row i) (row j)) s))
  sort_slots-result_cmp sorter order row flag slots unset small =
      sort_slots-returns sorter (λ i j. result_cmp x order (row i) (row j)) flag slots
        (lawful-IsOrder (result_cmp-IsLawful order) row) unset small
