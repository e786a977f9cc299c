-- ===== src/NaturalOrder/Value.antt =====
-- The value of a run of digits in decimal, and that comparing runs without zeros in front by their
-- length and then digit by digit is comparing the values.
use apfsearch.Prelude.{
  ℕ, zero, suc, ◌+◌, ◌-◌, ◌*◌, ◌≤◌, ◌<◌, ◌≡◌, refl, true, false, [], ◌∷◌, length, All, Ordering,
  compare, ◌==◌, arith, Bool-cases, inl, inr,
}
use native.Mathlib.Nat.{mul-le-mul_right}
use apfsearch.Text.{Bytes}
use apfsearch.Compare.{list_cmp}
use apfsearch.NaturalOrder.{is_digit, skip_zeros, digit_run, run_cmp}

-- A power of ten.
abbrev tens : ℕ → ℕ
tens zero = 1
tens (suc n) = 10 * tens n

-- The number that digits stand for in decimal.
abbrev pub value : Bytes → ℕ
value [] = 0
value (c ∷ digits) = (c - b'0') * tens (length digits) + value digits

abbrev IsDigit : ℕ → Type 0
IsDigit c = is_digit c ≡ true

pub digit_run-All : (bytes : Bytes) → All IsDigit (digit_run bytes)
unfolding digit_run
digit_run-All [] = tt
digit_run-All (c ∷ bytes) = elim (Bool-cases (is_digit c)) [
  | inl e ↦ rw (e, digit_run) (e, digit_run-All bytes)
  | inr n ↦ rw n tt
]

digit_high : (c : ℕ) → IsDigit c → c - b'0' ≤ 9
digit_high c h = ground arith

digit_order : (c d : ℕ) → IsDigit c → IsDigit d → c < d → (c - b'0') + 1 ≤ d - b'0'
digit_order c d h k less = ground arith

value_below : (ds : Bytes) → All IsDigit ds → value ds < tens (length ds)
value_below [] h = omega arith
value_below (c ∷ ds) (h, k) =
    let high : (c - b'0') * tens (length ds) ≤ 9 * tens (length ds) =
      mul-le-mul_right (tens (length ds)) (digit_high c h) in
    omega (arith, high, value_below ds k)

value-skip_zeros : (ds : Bytes) → value (skip_zeros ds) ≡ value ds
unfolding skip_zeros
value-skip_zeros [] = refl
value-skip_zeros (c ∷ ds) = elim (Bool-cases (c == b'0')) [
  | inl e ↦
      let same : c ≡ b'0' = ground arith in
      let nothing : (c - b'0') * tens (length ds) ≡ 0 = rw same (omega arith) in
      rw (e, skip_zeros) (omega (arith, nothing, value-skip_zeros ds))
  | inr n ↦ rw n refl
]

skip_zeros-All : (ds : Bytes) → All IsDigit ds → All IsDigit (skip_zeros ds)
unfolding skip_zeros
skip_zeros-All [] h = tt
skip_zeros-All (c ∷ ds) (h, k) = elim (Bool-cases (c == b'0')) [
  | inl e ↦ rw (e, skip_zeros) (skip_zeros-All ds k)
  | inr n ↦ rw n (h, k)
]

-- Nothing, or another digit than zero in front.
abbrev Leads : Bytes → Type 0
Leads [] = Unit {0}
Leads (c ∷ ds) = (c == b'0') ≡ false

skip_zeros-Leads : (ds : Bytes) → Leads (skip_zeros ds)
unfolding skip_zeros
skip_zeros-Leads [] = tt
skip_zeros-Leads (c ∷ ds) = elim (Bool-cases (c == b'0')) [
  | inl e ↦ rw (e, skip_zeros) (skip_zeros-Leads ds)
  | inr n ↦ rw n n
]

digit_low : (c : ℕ) → IsDigit c → (c == b'0') ≡ false → 1 ≤ c - b'0'
digit_low c h n = ground arith

tens_le : (m n : ℕ) → m ≤ n → tens m ≤ tens n
tens_le zero zero h = omega arith
tens_le zero (suc n) h = omega (arith, tens_le zero n (omega arith))
tens_le (suc m) zero h = absurd (omega arith)
tens_le (suc m) (suc n) h = omega (arith, tens_le m n (omega arith))

-- A longer run has the greater value.
value_longer :
    (a b : Bytes)
    → All IsDigit a
    → All IsDigit b
    → Leads b
    → length a < length b
    → value a < value b
value_longer a [] h k lead less = absurd (omega arith)
value_longer a (d ∷ b) h (k, k') lead less =
    let low : 1 * tens (length b) ≤ (d - b'0') * tens (length b) =
      mul-le-mul_right (tens (length b)) (digit_low d k lead) in
    let fits : tens (length a) ≤ tens (length b) = tens_le (length a) (length b) (omega arith) in
    omega (arith, low, fits, value_below a h)

-- Behind the first digits that differ, the values are too small to matter.
value_first :
    (c d : ℕ) (a b : Bytes)
    → IsDigit c
    → IsDigit d
    → All IsDigit a
    → length a ≡ length b
    → c < d
    → value (c ∷ a) < value (d ∷ b)
value_first c d a b h k all same less =
    let step : ((c - b'0') + 1) * tens (length a) ≤ (d - b'0') * tens (length a) =
      mul-le-mul_right (tens (length a)) (digit_order c d h k less) in
    rw (← same) (omega (arith, step, value_below a all))

compare_lt : (m n : ℕ) → m < n → compare m n ≡ Ordering.lt
compare_lt m n h = ground arith

compare_gt : (m n : ℕ) → n < m → compare m n ≡ Ordering.gt
compare_gt m n h = ground arith

compare_eq : (m n : ℕ) → m ≡ n → compare m n ≡ Ordering.eq
compare_eq m n h = ground arith

data Trichotomy (m n : ℕ) : Type 0 where
  less : m < n → Trichotomy m n
  same : m ≡ n → Trichotomy m n
  more : n < m → Trichotomy m n

trichotomy : (m n : ℕ) → Trichotomy m n
trichotomy m n = split (compare m n) refl
  where
    split : (o : Ordering) → compare m n ≡ o → Trichotomy m n
    split Ordering.lt h = less (ground arith)
    split Ordering.eq h = same (ground arith)
    split Ordering.gt h = more (ground arith)

compare_add : (k m n : ℕ) → compare (k + m) (k + n) ≡ compare m n
compare_add k m n = ground arith

-- Runs of one length.
list_cmp-value :
    (a b : Bytes)
    → All IsDigit a
    → All IsDigit b
    → length a ≡ length b
    → list_cmp compare a b ≡ compare (value a) (value b)
unfolding list_cmp
list_cmp-value [] [] h k e = refl
list_cmp-value [] (d ∷ b) h k e = absurd (omega arith)
list_cmp-value (c ∷ a) [] h k e = absurd (omega arith)
list_cmp-value (c ∷ a) (d ∷ b) (h, h') (k, k') e =
    let e' : length a ≡ length b = omega arith in
    elim (trichotomy c d) [
      | less l ↦
          rw
            (
              compare_lt c d l,
              compare_lt (value (c ∷ a)) (value (d ∷ b)) (value_first c d a b h k h' e' l),
            )
            refl
      | same s ↦
          rw
            (
              compare_eq c d s,
              list_cmp-value a b h' k' e',
              s,
              e',
              compare_add ((d - b'0') * tens (length b)) (value a) (value b),
            )
            refl
      | more g ↦
          let e'' : length b ≡ length a = omega arith in
          rw
            (
              compare_gt c d g,
              compare_gt (value (c ∷ a)) (value (d ∷ b)) (value_first d c b a k h k' e'' g),
            )
            refl
    ]

run_cmp-value :
    (a b : Bytes)
    → All IsDigit a
    → All IsDigit b
    → Leads a
    → Leads b
    → run_cmp a b ≡ compare (value a) (value b)
run_cmp-value a b h k lead lead' = elim (trichotomy (length a) (length b)) [
  | less l ↦
      rw
        (
          compare_lt (length a) (length b) l,
          compare_lt (value a) (value b) (value_longer a b h k lead' l),
        )
        refl
  | same s ↦ rw (compare_eq (length a) (length b) s) (list_cmp-value a b h k s)
  | more g ↦
      rw
        (
          compare_gt (length a) (length b) g,
          compare_gt (value a) (value b) (value_longer b a k h lead g),
        )
        refl
]

-- With zeros in front.
pub run_cmp-skip_zeros :
    (a b : Bytes)
    → All IsDigit a
    → All IsDigit b
    → run_cmp (skip_zeros a) (skip_zeros b) ≡ compare (value a) (value b)
run_cmp-skip_zeros a b h k =
    rw (← value-skip_zeros a, ← value-skip_zeros b)
      (run_cmp-value (skip_zeros a) (skip_zeros b) (skip_zeros-All a h) (skip_zeros-All b k)
        (skip_zeros-Leads a) (skip_zeros-Leads b))
