-- ===== src/TextOrder/Equality.antt =====
-- Texts in two regions are equal exactly if their bytes are.
use apfsearch.Prelude.{
  ℕ, ◌≡◌, refl, sym, ap, ◌∙◌, true, [], ◌∷◌, length, Ordering, arith, ◌↔◌, length-append,
}
use apfsearch.Text.{encode_utf8, len_utf8, Text, Bytes, TextView, as_bytes, byte_length}
use apfsearch.Compare.{list_cmp}
use apfsearch.Compare.Lawful.{cmp_refl}
use apfsearch.NaturalOrder.{view_bytes}
use apfsearch.TextOrder.{str_cmp, view_cmp, view_eq, view_len, is_eq}
use apfsearch.TextOrder.Spans.{view_cmp-eq, str_cmp-IsLawful}

pub str_cmp_sound : (a b : Bytes) → str_cmp a b ≡ Ordering.eq → a ≡ b
unfolding list_cmp
str_cmp_sound [] [] h = refl
str_cmp_sound [] (y ∷ b) h = cc
str_cmp_sound (x ∷ a) [] h = cc
str_cmp_sound (x ∷ a) (y ∷ b) h = ground (arith, str_cmp_sound a b)

is_eq_sound : (o : Ordering) → is_eq o ≡ true → o ≡ Ordering.eq
is_eq_sound Ordering.lt h = cc
is_eq_sound Ordering.eq h = refl
is_eq_sound Ordering.gt h = cc

length-encode_utf8 : (c : ℕ) → length (encode_utf8 c) ≡ len_utf8 c
length-encode_utf8 c = ground arith

byte_length-eq : (t : Text) → byte_length t ≡ length (as_bytes t)
unfolding byte_length as_bytes
byte_length-eq [] = refl
byte_length-eq (c ∷ t) =
    omega
      (arith, byte_length-eq t, length-encode_utf8 c, length-append (encode_utf8 c) (as_bytes t))

same_view : (a b : TextView) → view_bytes a ≡ view_bytes b → view_eq a b ≡ true
unfolding view_eq
same_view a b h =
    let lengths : length (view_bytes a) ≡ length (view_bytes b) = ap length h in
    let sizes : view_len a ≡ view_len b = omega (
      arith,
      byte_length-eq a.prefix,
      byte_length-eq a.suffix,
      byte_length-eq b.prefix,
      byte_length-eq b.suffix,
      length-append (as_bytes a.prefix) (as_bytes a.suffix),
      length-append (as_bytes b.prefix) (as_bytes b.suffix),
    ) in
    let equal : view_cmp a b ≡ Ordering.eq =
      view_cmp-eq a b ∙ rw h (cmp_refl str_cmp-IsLawful (view_bytes b)) in
    rw (sizes, equal) (ground arith)

-- For all texts in two regions, `==` holds exactly if the texts have the same bytes, wherever the
-- regions part.
pub view_eq_lem : (a b : TextView) → (view_eq a b ≡ true) ↔ (view_bytes a ≡ view_bytes b)
unfolding view_eq
view_eq_lem a b =
    let to : view_eq a b ≡ true → view_bytes a ≡ view_bytes b = λ h.
      str_cmp_sound (view_bytes a) (view_bytes b)
        (sym (view_cmp-eq a b) ∙ is_eq_sound (view_cmp a b) (ground arith)) in
    let from : view_bytes a ≡ view_bytes b → view_eq a b ≡ true = λ h. same_view a b h in (to, from)
