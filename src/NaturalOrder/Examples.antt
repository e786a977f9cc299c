-- ===== src/NaturalOrder/Examples.antt =====
-- Tests of the natural order of core/src/query.rs and core/src/text_view.rs.
use apfsearch.Prelude.{◌≡◌, refl, Ordering}
use apfsearch.Text.{Bytes, TextView, as_bytes, codes}
use apfsearch.NaturalOrder.{natural_cmp_folded, view_natural_cmp, view_bytes}
use apfsearch.NaturalOrder.Reference.{natural_cmp_folded-eq, token_order}
use apfsearch.NaturalOrder.View.{view_natural_cmp-eq}

abbrev tenth : Bytes
tenth = as_bytes (codes "file10.txt")

abbrev second : Bytes
second = as_bytes (codes "file02.txt")

second_first : natural_cmp_folded second tenth ≡ Ordering.lt
unfolding natural_cmp_folded as_bytes
second_first = refl

natural_cmp_folded-eq_example : natural_cmp_folded second tenth ≡ token_order second tenth
natural_cmp_folded-eq_example = natural_cmp_folded-eq second tenth

-- One text of two regions that part inside a number.
abbrev parted : TextView
parted = record { prefix = codes "a1"; suffix = codes "0" }

abbrev other : TextView
other = record { prefix = codes "a1"; suffix = codes "x" }

view_natural_cmp-eq_example :
    view_natural_cmp parted other ≡ natural_cmp_folded (view_bytes parted) (view_bytes other)
view_natural_cmp-eq_example = view_natural_cmp-eq parted other
