-- ===== src/NaturalOrder/View.antt =====
-- The natural order of texts in two regions is that of the whole texts.
use apfsearch.Prelude.{
  ℕ, zero, suc, length, drop, Ordering, compare, ◌≡◌, refl, sym, ap, ◌∙◌, true, ◌&&◌, List, [], ◌∷◌,
  ◌++◌, arith, Bool-cases, inl, inr, subst,
}
use mathlib.Core.Path.{fun_ext}
use apfsearch.Text.{Bytes, TextView, as_bytes, text_eq}
use apfsearch.Text.Equal.{text_eq_sound}
use apfsearch.Compare.{list_cmp}
use apfsearch.Compare.Lawful.{IsLawful, key-IsLawful, cmp_refl}
use apfsearch.NaturalOrder.{
  view_loop, natural_loop, is_digit, skip_zeros, digit_run, behind_run, natural_cmp_folded,
  ends_without_digit, view_bytes, view_natural_cmp,
}
use apfsearch.NaturalOrder.Tokens.{Token, tokens, token_cmp, token-IsLawful, tokens-append}
use apfsearch.NaturalOrder.Reference.{natural_cmp_folded-eq, natural_cmp_folded-IsLawful}

-- An equal beginning is skipped.
list_cmp-append :
    (ts us vs : List Token) → list_cmp token_cmp (ts ++ us) (ts ++ vs) ≡ list_cmp token_cmp us vs
unfolding list_cmp
list_cmp-append [] us vs = refl
list_cmp-append (t ∷ ts) us vs = rw (cmp_refl token-IsLawful t) (list_cmp-append ts us vs)

natural-append :
    (p a b : Bytes)
    → ends_without_digit p ≡ true
    → natural_cmp_folded a b ≡ natural_cmp_folded (p ++ a) (p ++ b)
natural-append p a b h =
    rw
      (
        natural_cmp_folded-eq a b,
        natural_cmp_folded-eq (p ++ a) (p ++ b),
        tokens-append p a h,
        tokens-append p b h,
      )
      (sym (list_cmp-append (tokens p) (tokens a) (tokens b)))

drop_run : (bytes : Bytes) → drop (length (digit_run bytes)) bytes ≡ behind_run bytes
unfolding digit_run behind_run
drop_run [] = refl
drop_run (c ∷ bytes) = elim (Bool-cases (is_digit c)) [
  | inl e ↦ rw (e, digit_run, behind_run) (drop_run bytes)
  | inr n ↦ rw n refl
]

nothing_left : (n : ℕ) → Ordering.lt ≡ compare 0 (suc n)
nothing_left n = ground arith

something_left : (n : ℕ) → Ordering.gt ≡ compare (suc n) 0
something_left n = ground arith

-- Turn by turn, the loop over iterators decides like the loop over indices.
view_loop-eq : (fuel : ℕ) (a b : Bytes) → view_loop fuel a b ≡ natural_loop fuel a b
unfolding view_loop natural_loop
view_loop-eq zero a b = refl
view_loop-eq (suc fuel) [] [] = refl
view_loop-eq (suc fuel) [] (d ∷ b) = nothing_left (length b)
view_loop-eq (suc fuel) (c ∷ a) [] = something_left (length a)
view_loop-eq (suc fuel) (c ∷ a) (d ∷ b) = elim (Bool-cases (is_digit c && is_digit d)) [
  | inl e ↦
      let left = skip_zeros (c ∷ a) in
      let right = skip_zeros (d ∷ b) in
      rw
        (
          e,
          view_loop,
          natural_loop,
          drop_run left,
          drop_run right,
          view_loop-eq fuel (behind_run left) (behind_run right),
        )
        refl
  | inr n ↦ rw (n, view_loop, natural_loop, view_loop-eq fuel a b) refl
]

-- For all texts in two regions, the comparison of the views is that of the whole texts: skipping
-- equal first regions, where the last byte is no digit, does not change it, and otherwise the loop
-- over the iterators decides like that of `natural_cmp_folded`.
pub view_natural_cmp-eq :
    (a b : TextView) → view_natural_cmp a b ≡ natural_cmp_folded (view_bytes a) (view_bytes b)
unfolding view_natural_cmp
view_natural_cmp-eq a b =
    elim (Bool-cases (text_eq a.prefix b.prefix && ends_without_digit (as_bytes a.prefix))) [
      | inl e ↦
          let same : a.prefix ≡ b.prefix = text_eq_sound a.prefix b.prefix (ground arith) in
          let ends : ends_without_digit (as_bytes a.prefix) ≡ true = ground arith in
          rw e (
            natural-append (as_bytes a.prefix) (as_bytes a.suffix) (as_bytes b.suffix) ends
            ∙ ap (λ p. natural_cmp_folded (view_bytes a) (as_bytes p ++ as_bytes b.suffix)) same)
      | inr n ↦ rw n (
          unfold natural_cmp_folded in
          view_loop-eq (suc (length (view_bytes a))) (view_bytes a) (view_bytes b))
    ]

-- `TextView::natural_cmp` is a total preorder.
pub view_natural_cmp-IsLawful : IsLawful view_natural_cmp
view_natural_cmp-IsLawful =
    subst IsLawful (sym (fun_ext λ a. fun_ext λ b. view_natural_cmp-eq a b))
      (key-IsLawful natural_cmp_folded-IsLawful view_bytes)
