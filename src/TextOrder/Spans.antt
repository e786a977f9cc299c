-- ===== src/TextOrder/Spans.antt =====
-- The comparison span by span is that of the whole texts.
use apfsearch.Prelude.{
  leb, ℕ, zero, suc, ◌+◌, ◌≤◌, ◌<◌, ◌≡◌, refl, sym, ap, ◌∙◌, List, [], ◌∷◌, ◌++◌, length, min, take,
  drop, Ordering, flatten, length-drop, arith, Bool-cases, inl, inr, subst, append-nil,
}
use mathlib.Core.Path.{fun_ext}
use apfsearch.Text.{Bytes, TextView, as_bytes, text_eq}
use apfsearch.Text.Equal.{text_eq_sound}
use apfsearch.Compare.{then_with, list_cmp}
use apfsearch.Compare.Lawful.{IsLawful, list-IsLawful, key-IsLawful, cmp_refl}
use apfsearch.Compare.Numbers.{compare-IsLawful}
use apfsearch.NaturalOrder.{view_bytes}
use apfsearch.TextOrder.{str_cmp, skip_empty, span_turn, span_loop, spans, view_cmp}

flatten-skip_empty : (l : List Bytes) → flatten (skip_empty l) ≡ flatten l
unfolding skip_empty flatten
flatten-skip_empty [] = refl
flatten-skip_empty ([] ∷ l) = flatten-skip_empty l
flatten-skip_empty ((c ∷ b) ∷ l) = refl

-- Beginnings of one length are compared first.
str_cmp-cut :
    (n : ℕ) (a b u v : Bytes)
    → n ≤ length a
    → n ≤ length b
    → str_cmp (a ++ u) (b ++ v)
      ≡ then_with (str_cmp (take n a) (take n b)) (str_cmp (drop n a ++ u) (drop n b ++ v))
unfolding list_cmp
str_cmp-cut zero a b u v h k = refl
str_cmp-cut (suc n) [] b u v h k = absurd (omega arith)
str_cmp-cut (suc n) (x ∷ a) [] u v h k = absurd (omega arith)
str_cmp-cut (suc n) (x ∷ a) (y ∷ b) u v h k =
    ground (arith, str_cmp-cut n a b u v (omega arith) (omega arith))

length-skip_empty : (l : List Bytes) → length (skip_empty l) ≤ length l
unfolding skip_empty
length-skip_empty [] = omega arith
length-skip_empty ([] ∷ l) = omega (arith, length-skip_empty l)
length-skip_empty ((c ∷ b) ∷ l) = omega arith

skip_empty-skip_empty : (l : List Bytes) → skip_empty (skip_empty l) ≡ skip_empty l
unfolding skip_empty
skip_empty-skip_empty [] = refl
skip_empty-skip_empty ([] ∷ l) = skip_empty-skip_empty l
skip_empty-skip_empty ((c ∷ b) ∷ l) = refl

-- The spans that are left to compare.
abbrev left_over : List Bytes → List Bytes → ℕ
left_over left right = length (skip_empty left) + length (skip_empty right)

length-skipped : (b : Bytes) (l : List Bytes) → length (skip_empty (b ∷ l)) ≤ suc (length l)
length-skipped b l = length-skip_empty (b ∷ l)

length-ended : (b : Bytes) (l : List Bytes) → length b ≡ 0 → length (skip_empty (b ∷ l)) ≤ length l
unfolding skip_empty
length-ended [] l h = length-skip_empty l
length-ended (c ∷ b) l h = absurd (omega arith)

-- A turn ends a span.
left_over-turn :
    (a b : Bytes) (left right : List Bytes)
    → left_over
        (drop (min (length a) (length b)) a ∷ left)
        (drop (min (length a) (length b)) b ∷ right)
      < suc (length left) + suc (length right)
left_over-turn a b left right =
    let n = min (length a) (length b) in
    elim (Bool-cases (leb (length a) (length b))) [
      | inl e ↦
          let ended : length (drop n a) ≡ 0 = ground (arith, length-drop n a) in
          omega (arith, length-ended (drop n a) left ended, length-skipped (drop n b) right)
      | inr m ↦
          let ended : length (drop n b) ≡ 0 = ground (arith, length-drop n b) in
          omega (arith, length-ended (drop n b) right ended, length-skipped (drop n a) left)
    ]

-- The spans that are left are compared like their bytes.
abbrev Follows : (List Bytes → List Bytes → Ordering) → ℕ → Type 0
Follows further fuel =
    (left right : List Bytes)
    → left_over left right < fuel
    → further left right ≡ str_cmp (flatten left) (flatten right)

skipped : (l : List Bytes) → skip_empty ([] ∷ l) ≡ [] ∷ l → ⊥
unfolding skip_empty
skipped l h =
    let same : length (skip_empty l) ≡ suc (length l) = ap length h in
    omega (arith, length-skip_empty l)

span_turn-eq :
    (further : List Bytes → List Bytes → Ordering) (fuel : ℕ)
    → Follows further fuel
    → (left right : List Bytes) → skip_empty left ≡ left
    → skip_empty right ≡ right
    → length left + length right < suc fuel
    → span_turn left right further ≡ str_cmp (flatten left) (flatten right)
unfolding span_turn flatten list_cmp
span_turn-eq further fuel f [] [] h k less = refl
span_turn-eq further fuel f [] ((c ∷ b) ∷ right) h k less = refl
span_turn-eq further fuel f ((c ∷ a) ∷ left) [] h k less = refl
span_turn-eq further fuel f ([] ∷ left) [] h k less = absurd (skipped left h)
span_turn-eq further fuel f [] ([] ∷ right) h k less = absurd (skipped right k)
span_turn-eq further fuel f (a ∷ left) (b ∷ right) h k less =
    let n = min (length a) (length b) in
    let rest : further (drop n a ∷ left) (drop n b ∷ right)
        ≡ str_cmp (drop n a ++ flatten left) (drop n b ++ flatten right) =
      f (drop n a ∷ left) (drop n b ∷ right) (omega (arith, left_over-turn a b left right)) in
    rw rest (sym (str_cmp-cut n a b (flatten left) (flatten right) (omega arith) (omega arith)))

span_loop-eq : (fuel : ℕ) → Follows (span_loop fuel) fuel
unfolding span_loop
span_loop-eq zero left right less = absurd (omega arith)
span_loop-eq (suc fuel) left right less =
    span_turn-eq (span_loop fuel) fuel (span_loop-eq fuel) (skip_empty left) (skip_empty right)
      (skip_empty-skip_empty left) (skip_empty-skip_empty right) (omega arith)
    ∙ rw (flatten-skip_empty left, flatten-skip_empty right) refl

pub str_cmp-IsLawful : IsLawful str_cmp
str_cmp-IsLawful = list-IsLawful compare-IsLawful

-- An equal beginning is skipped.
str_cmp-append : (p a b : Bytes) → str_cmp a b ≡ str_cmp (p ++ a) (p ++ b)
unfolding list_cmp
str_cmp-append [] a b = refl
str_cmp-append (c ∷ p) a b = rw (cmp_refl compare-IsLawful c) (str_cmp-append p a b)

whole : (a b : TextView) → span_loop 5 (spans a) (spans b) ≡ str_cmp (view_bytes a) (view_bytes b)
unfolding flatten
whole a b =
    let few : left_over (spans a) (spans b) < 5 =
      omega (arith, length-skip_empty (spans a), length-skip_empty (spans b)) in
    span_loop-eq 5 (spans a) (spans b) few
    ∙ rw (append-nil (as_bytes a.suffix), append-nil (as_bytes b.suffix)) refl

-- For all texts in two regions, `Ord::cmp` is the comparison of the bytes of the whole texts.
pub view_cmp-eq : (a b : TextView) → view_cmp a b ≡ str_cmp (view_bytes a) (view_bytes b)
unfolding view_cmp
view_cmp-eq a b = elim (Bool-cases (text_eq a.prefix b.prefix)) [
  | inl e ↦ rw e (
      str_cmp-append (as_bytes a.prefix) (as_bytes a.suffix) (as_bytes b.suffix)
      ∙ ap (λ p. str_cmp (view_bytes a) (as_bytes p ++ as_bytes b.suffix))
          (text_eq_sound a.prefix b.prefix e))
  | inr n ↦ rw n (whole a b)
]

-- The order of texts in two regions is a total preorder.
pub view_cmp-IsLawful : IsLawful view_cmp
view_cmp-IsLawful =
    subst IsLawful (sym (fun_ext λ a. fun_ext λ b. view_cmp-eq a b))
      (key-IsLawful str_cmp-IsLawful view_bytes)
