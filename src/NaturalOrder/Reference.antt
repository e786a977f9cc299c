-- ===== src/NaturalOrder/Reference.antt =====
-- The natural order is the lexicographic order of tokens, and so a lawful comparison.
use apfsearch.Prelude.{
  ℕ, zero, suc, ◌<◌, ◌≡◌, refl, sym, ◌∙◌, true, false, ◌&&◌, [], ◌∷◌, length, Ordering, compare,
  arith, Bool-cases, inl, inr, subst,
}
use mathlib.Core.Path.{fun_ext}
use apfsearch.Text.{Bytes}
use apfsearch.Compare.{then_with, list_cmp}
use apfsearch.Compare.Lawful.{IsLawful, key-IsLawful, list-IsLawful}
use apfsearch.NaturalOrder.{
  is_digit, skip_zeros, digit_run, behind_run, run_cmp, natural_loop, natural_cmp_folded,
}
use apfsearch.NaturalOrder.Value.{digit_run-All, run_cmp-skip_zeros}
use apfsearch.NaturalOrder.Tokens.{
  tokens, token_cmp, token-IsLawful, tokens_of_run, tokens_of_other, digit_run-skip_zeros,
  behind_run-skip_zeros, behind_run_shorter, tokens_of_nothing,
}

abbrev pub token_order : Bytes → Bytes → Ordering
token_order a b = list_cmp token_cmp (tokens a) (tokens b)

-- Two runs in front.
order_of_runs :
    (c d : ℕ) (a b : Bytes)
    → is_digit c ≡ true
    → is_digit d ≡ true
    → token_order (c ∷ a) (d ∷ b)
      ≡ then_with
          (run_cmp (digit_run (skip_zeros (c ∷ a))) (digit_run (skip_zeros (d ∷ b))))
          (token_order (behind_run (skip_zeros (c ∷ a))) (behind_run (skip_zeros (d ∷ b))))
unfolding list_cmp
order_of_runs c d a b h k =
    rw
      (
        tokens_of_run c a h,
        tokens_of_run d b k,
        digit_run-skip_zeros (c ∷ a),
        digit_run-skip_zeros (d ∷ b),
        run_cmp-skip_zeros (digit_run (c ∷ a)) (digit_run (d ∷ b)) (digit_run-All (c ∷ a))
            (digit_run-All (d ∷ b)),
        behind_run-skip_zeros (c ∷ a),
        behind_run-skip_zeros (d ∷ b),
      )
      refl

-- Two bytes in front that are not both digits.
order_of_bytes :
    (c d : ℕ) (a b : Bytes)
    → (is_digit c && is_digit d) ≡ false
    → token_order (c ∷ a) (d ∷ b) ≡ then_with (compare c d) (token_order a b)
unfolding list_cmp
order_of_bytes c d a b h = elim (Bool-cases (is_digit c)) [
  | inl e ↦
      let n : is_digit d ≡ false = ground arith in
      rw (tokens_of_run c a e, tokens_of_other d b n) (ground arith)
  | inr m ↦ elim (Bool-cases (is_digit d)) [
    | inl e ↦ rw (tokens_of_other c a m, tokens_of_run d b e) (ground arith)
    | inr n ↦ rw (tokens_of_other c a m, tokens_of_other d b n) refl
  ]
]

empty_first : (d : ℕ) (b : Bytes) → Ordering.lt ≡ token_order [] (d ∷ b)
unfolding list_cmp
empty_first d b = elim (Bool-cases (is_digit d)) [
  | inl e ↦ rw (tokens_of_run d b e, tokens_of_nothing) refl
  | inr n ↦ rw (tokens_of_other d b n, tokens_of_nothing) refl
]

empty_second : (c : ℕ) (a : Bytes) → Ordering.gt ≡ token_order (c ∷ a) []
unfolding list_cmp
empty_second c a = elim (Bool-cases (is_digit c)) [
  | inl e ↦ rw (tokens_of_run c a e, tokens_of_nothing) refl
  | inr n ↦ rw (tokens_of_other c a n, tokens_of_nothing) refl
]

zero_first : (n : ℕ) → compare 0 (suc n) ≡ Ordering.lt
zero_first n = ground arith

zero_second : (n : ℕ) → compare (suc n) 0 ≡ Ordering.gt
zero_second n = ground arith

pub natural_loop-eq :
    (fuel : ℕ) (a b : Bytes) → length a < fuel → natural_loop fuel a b ≡ token_order a b
unfolding natural_loop
natural_loop-eq zero a b h = absurd (omega arith)
natural_loop-eq (suc fuel) [] [] h = rw tokens_of_nothing (unfold list_cmp in refl)
natural_loop-eq (suc fuel) [] (d ∷ b) h = zero_first (length b) ∙ empty_first d b
natural_loop-eq (suc fuel) (c ∷ a) [] h = zero_second (length a) ∙ empty_second c a
natural_loop-eq (suc fuel) (c ∷ a) (d ∷ b) h = elim (Bool-cases (is_digit c && is_digit d)) [
  | inl e ↦
      let left = skip_zeros (c ∷ a) in
      let right = skip_zeros (d ∷ b) in
      let first : is_digit c ≡ true = ground arith in
      let second : is_digit d ≡ true = ground arith in
      let less : length (behind_run left) < fuel = omega (arith, behind_run_shorter c a first) in
      rw
        (
          e,
          natural_loop,
          order_of_runs c d a b first second,
          natural_loop-eq fuel (behind_run left) (behind_run right) less,
        )
        refl
  | inr n ↦
      rw (n, natural_loop, order_of_bytes c d a b n, natural_loop-eq fuel a b (omega arith)) refl
]

-- For all texts, `natural_cmp_folded` is the lexicographic comparison of their readings as whole
-- numbers, compared by their values in decimal, and single bytes.
pub natural_cmp_folded-eq : (a b : Bytes) → natural_cmp_folded a b ≡ token_order a b
unfolding natural_cmp_folded
natural_cmp_folded-eq a b = natural_loop-eq (suc (length a)) a b (omega arith)

-- `natural_cmp_folded` is a total preorder: swapping its arguments reverses it, it is transitive,
-- and texts that compare equal compare alike with every other.
pub natural_cmp_folded-IsLawful : IsLawful natural_cmp_folded
natural_cmp_folded-IsLawful =
    subst IsLawful (sym (fun_ext λ a. fun_ext λ b. natural_cmp_folded-eq a b))
      (key-IsLawful (list-IsLawful token-IsLawful) tokens)
