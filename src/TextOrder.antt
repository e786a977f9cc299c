-- ===== src/TextOrder.antt =====
-- The order and the equality of texts in two regions, core/src/text_view.rs (`Ord::cmp`,
-- `PartialEq::eq`). A text is compared by its bytes.
pub mod Spans
pub mod Equality
mod Examples
use apfsearch.Prelude.{
  ℕ, zero, suc, Bool, true, false, ◌&&◌, List, [], ◌∷◌, ◌==◌, if◌then◌else◌, length, min, take,
  drop, Ordering, compare, ◌+◌,
}
use apfsearch.Compare.{then_with, list_cmp, bool_cmp}
use apfsearch.Text.{Bytes, TextView, as_bytes, byte_length, text_eq}

abbrev pub is_eq : Ordering → Bool
is_eq Ordering.eq = true
is_eq _ = false

-- `str::cmp`
abbrev pub str_cmp : Bytes → Bytes → Ordering
str_cmp = list_cmp compare

-- The spans from the first that is not empty.
pub skip_empty : List Bytes → List Bytes
skip_empty [] = []
skip_empty ([] ∷ spans) = skip_empty spans
skip_empty ((c ∷ bytes) ∷ spans) = (c ∷ bytes) ∷ spans

-- One turn at spans that are not empty: `further` goes on behind what both have.
pub span_turn : List Bytes → List Bytes → (List Bytes → List Bytes → Ordering) → Ordering
span_turn [] [] further = bool_cmp false false
span_turn [] (r ∷ right) further = bool_cmp false true
span_turn (l ∷ left) [] further = bool_cmp true false
span_turn (l ∷ left) (r ∷ right) further =
    let shared = min (length l) (length r) in
    then_with (str_cmp (take shared l) (take shared r))
      (further (drop shared l ∷ left) (drop shared r ∷ right))

-- The turns of the loop over the spans of both sides. Each but the last ends a span, so that five
-- turns are enough for four spans.
pub span_loop : ℕ → List Bytes → List Bytes → Ordering
unfolding skip_empty span_turn
span_loop zero left right = Ordering.eq
span_loop (suc fuel) left right = span_turn (skip_empty left) (skip_empty right) (span_loop fuel)

abbrev pub spans : TextView → List Bytes
spans view = as_bytes view.prefix ∷ as_bytes view.suffix ∷ []

unfoldable pub view_cmp : TextView → TextView → Ordering
unfolding span_loop
view_cmp a b =
    if text_eq a.prefix b.prefix
    then str_cmp (as_bytes a.suffix) (as_bytes b.suffix)
    else span_loop 5 (spans a) (spans b)

abbrev view_len : TextView → ℕ
view_len view = byte_length view.prefix + byte_length view.suffix

unfoldable pub view_eq : TextView → TextView → Bool
unfolding view_cmp
view_eq a b = (view_len a == view_len b) && is_eq (view_cmp a b)
