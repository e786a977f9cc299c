-- ===== src/ResultOrder/Examples.antt =====
-- Tests of core/src/result_order.rs.
use apfsearch.Prelude.{
  ◌<◌, sym, subst, ℕ, zero, suc, ◌≡◌, refl, Bool, true, false, List, [], ◌∷◌, Ordering, compare,
  arith, length, ap, leb, none,
}
use mathlib.Core.List.{Perm}
use mathlib.Core.List.Perm
use apfsearch.Integer.{pos}
use apfsearch.Text.{Text, codes, as_bytes, byte_length}
use apfsearch.Compare.{list_cmp}
use apfsearch.TextOrder.{view_cmp, view_eq}
use apfsearch.External.Plain.{plain}
use apfsearch.Query.Ast.{FileEntry}
use apfsearch.Result.{err, ok, cancelled}
use apfsearch.Compare.Lawful.{IsLawful}
use apfsearch.Compare.Numbers.{compare-IsLawful}
use apfsearch.NaturalOrder.{view_bytes, natural_cmp_folded}
use apfsearch.OrderedMerge.Order.{IsOrder, IsSorted, merge, merge-perm, merge-IsSorted}
use apfsearch.ResultOrder.{ResultOrder, by_name, result_cmp, affected_by_change}
use apfsearch.ResultOrder.Lawful.{lawful-IsOrder, result_cmp-IsLawful, sort_slots-result_cmp}
use apfsearch.ResultOrder.Changed.{affected_by_change_lem, result_cmp_sound}
use apfsearch.ResultOrder.Sort.{Sorter, sort_slots}
use apfsearch.ResultOrder.Sort.Sorted.{sort_loads, sort_slots-returns, sort_slots-cancelled}

-- A sorter by insertion.
abbrev inserted : (ℕ → ℕ → Ordering) → List ℕ → List ℕ
inserted compare [] = []
inserted compare (s ∷ slots) = merge compare (s ∷ []) (inserted compare slots)

inserted-perm : (compare : ℕ → ℕ → Ordering) (slots : List ℕ) → Perm (inserted compare slots) slots
inserted-perm compare [] = Perm.refl []
inserted-perm compare (s ∷ slots) =
    Perm.trans (merge-perm compare (s ∷ []) (inserted compare slots))
      (Perm.cons s (inserted-perm compare slots))

inserted-IsSorted :
    (compare : ℕ → ℕ → Ordering) (slots : List ℕ)
    → IsOrder compare
    → IsSorted compare (inserted compare slots)
inserted-IsSorted compare [] o = tt
inserted-IsSorted compare (s ∷ slots) o =
    merge-IsSorted compare o (s ∷ []) (inserted compare slots) (tt, tt)
      (inserted-IsSorted compare slots o)

abbrev insertion : Sorter
insertion = record { sort = inserted; perm = inserted-perm; sorted = inserted-IsSorted }

compare-IsOrder : IsOrder compare
compare-IsOrder = lawful-IsOrder compare-IsLawful (λ n. n)

abbrev slots : List ℕ
slots = 5 ∷ 3 ∷ 8 ∷ 1 ∷ []

-- A flag that is never set, and one that is set before its fourth load.
abbrev unset : ℕ → Bool
unset n = false

abbrev set_later : ℕ → Bool
set_later n = leb 3 n

-- Slots from a number down.
abbrev down : ℕ → List ℕ
down zero = []
down (suc n) = n ∷ down n

length-down : (n : ℕ) → length (down n) ≡ n
length-down zero = refl
length-down (suc n) = ap suc (length-down n)

sort_slots-returns_example :
    (s : List ℕ) × ((sort_slots insertion compare unset slots ≡ ok s)
      × (Perm s slots × IsSorted compare s))
sort_slots-returns_example =
    sort_slots-returns insertion compare unset slots compare-IsOrder (λ n. refl) (omega arith)

fourth_made : 3 < sort_loads (length (down 1500))
fourth_made = subst (λ n. 3 < sort_loads n) (sym (length-down 1500)) (omega arith)

-- Two runs are sorted after two loads, and two more loads are made while they are merged.
sort_slots-cancelled_example : sort_slots insertion compare set_later (down 1500) ≡ err cancelled
sort_slots-cancelled_example =
    (sort_slots-cancelled insertion compare set_later (down 1500) compare-IsOrder
        (rw (length-down 1500) (omega arith))).0
      3 fourth_made refl

abbrev file : ℕ → Text → FileEntry plain
file size name = record {
  id = pos 7;
  size = size;
  modified = pos 100;
  created = pos 90;
  flags = 0;
  path = record { prefix = codes "/tmp/"; suffix = name };
  name = name;
  folded_name = name;
  folded_path = record { prefix = codes "/tmp/"; suffix = name };
  search_name = name;
  search_path = record { prefix = codes "/tmp/"; suffix = name };
  parent = codes "/tmp";
  extension = codes "txt";
  folded_extension = codes "txt";
  is_dir = false;
  is_symlink = false;
  properties = λ key. none;
}

abbrev smaller : FileEntry plain
smaller = file 10 (codes "b2.txt")

abbrev larger : FileEntry plain
larger = file 30 (codes "b2.txt")

abbrev other : FileEntry plain
other = file 20 (codes "b10.txt")

abbrev names : ResultOrder
names = (by_name, true) ∷ []

abbrev rows : ℕ → FileEntry plain
rows zero = other
rows (suc n) = smaller

by_number : result_cmp plain names smaller other ≡ Ordering.lt
unfolding result_cmp natural_cmp_folded as_bytes
by_number = refl

sort_slots-result_cmp_example :
    (s : List ℕ) × ((sort_slots insertion
          (λ i j. result_cmp plain names (rows i) (rows j))
          unset
          slots
        ≡ ok s)
      × (Perm s slots × IsSorted (λ i j. result_cmp plain names (rows i) (rows j)) s))
sort_slots-result_cmp_example =
    sort_slots-result_cmp plain insertion names rows unset slots (λ n. refl) (omega arith)

result_cmp-IsLawful_example : IsLawful (result_cmp plain names)
result_cmp-IsLawful_example = result_cmp-IsLawful plain names

unaffected : affected_by_change plain names smaller larger ≡ false
unfolding affected_by_change view_eq view_cmp as_bytes list_cmp byte_length
unaffected = refl

affected_by_change_lem_example :
    result_cmp plain names smaller other ≡ result_cmp plain names larger other
affected_by_change_lem_example =
    affected_by_change_lem plain names smaller larger other (λ h. refl, λ h. refl) unaffected

same_rows : result_cmp plain names smaller larger ≡ Ordering.eq
unfolding result_cmp natural_cmp_folded view_cmp as_bytes list_cmp
same_rows = refl

result_cmp_sound_example :
    (view_bytes smaller.path ≡ view_bytes larger.path) × (smaller.id ≡ larger.id)
result_cmp_sound_example = result_cmp_sound plain names smaller larger same_rows
