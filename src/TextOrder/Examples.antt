-- ===== src/TextOrder/Examples.antt =====
-- Tests of the order of core/src/text_view.rs.
use apfsearch.Prelude.{◌≡◌, ◌↔◌, refl, Ordering, true}
use apfsearch.Compare.{list_cmp}
use apfsearch.Text.{as_bytes, TextView, codes}
use apfsearch.NaturalOrder.{view_bytes}
use apfsearch.TextOrder.{view_cmp, view_eq, str_cmp}
use apfsearch.TextOrder.Spans.{view_cmp-eq}
use apfsearch.TextOrder.Equality.{view_eq_lem}

abbrev early : TextView
early = record { prefix = codes "/t"; suffix = codes "mp/a" }

abbrev late : TextView
late = record { prefix = codes "/tmp"; suffix = codes "/a" }

same_text : view_cmp early late ≡ Ordering.eq
unfolding view_cmp as_bytes list_cmp
same_text = refl

view_cmp-eq_example : view_cmp early late ≡ str_cmp (view_bytes early) (view_bytes late)
view_cmp-eq_example = view_cmp-eq early late

view_eq_lem_example : (view_eq early late ≡ true) ↔ (view_bytes early ≡ view_bytes late)
view_eq_lem_example = view_eq_lem early late
