-- ===== src/OrderedMerge/Locate.antt =====
-- The galloping search of core/src/ordered_merge.rs finds the partition point of a sorted slice.
use apfsearch.Prelude.{
  ℕ, zero, suc, ◌+◌, ◌-◌, ◌≤◌, ◌<◌, ◌≡◌, refl, ap, Bool, true, false, List, [], ◌∷◌, ◌++◌, Ordering,
  min, length, get_elem?, take, drop, arith, partition_point, holds_at, Bool-cases, inl, inr, All,
}
use apfsearch.OrderedMerge.{not_gt, next_probe, gallop, locate}
use apfsearch.OrderedMerge.Order.{IsOrder, IsSorted, Below, merge}

module _ {ℓ} {A : Type ℓ} (p : A → Bool) where
  -- `p` holds of a prefix and of nothing behind it.
  abbrev pub IsPartitioned : List A → Type ℓ
  IsPartitioned [] = Unit
  IsPartitioned (x ∷ xs) = (p x ≡ false → All (λ y. p y ≡ false) xs) × IsPartitioned xs

  none-holds :
      (xs : List A) (i : ℕ) → All (λ y. p y ≡ false) xs → holds_at p (get_elem? xs i) ≡ false
  none-holds [] i h = refl
  none-holds (x ∷ xs) zero h = h.0
  none-holds (x ∷ xs) (suc i) h = none-holds xs i h.1

  pub partition_point-le : (xs : List A) → partition_point p xs ≤ length xs
  partition_point-le [] = omega arith
  partition_point-le (x ∷ xs) = ground (arith, partition_point-le xs)

  -- What lies before the partition point satisfies `p`, and what lies behind it does not.
  pub lt_of_holds :
      (xs : List A) (i : ℕ)
      → IsPartitioned xs
      → holds_at p (get_elem? xs i) ≡ true
      → i < partition_point p xs
  lt_of_holds [] i h e = ground arith
  lt_of_holds (x ∷ xs) zero h e = ground arith
  lt_of_holds (x ∷ xs) (suc i) h e = elim (Bool-cases (p x)) [
    | inl t ↦ rw t (ground (arith, lt_of_holds xs i h.1 e))
    | inr f ↦ ground (arith, none-holds xs i (h.0 f))
  ]

  pub le_of_fails :
      (xs : List A) (i : ℕ) → holds_at p (get_elem? xs i) ≡ false → partition_point p xs ≤ i
  le_of_fails [] i e = omega arith
  le_of_fails (x ∷ xs) zero e = ground arith
  le_of_fails (x ∷ xs) (suc i) e = ground (arith, le_of_fails xs i e)

  pub partition_point-take :
      (n : ℕ) (xs : List A)
      → partition_point p xs ≤ n
      → partition_point p (take n xs) ≡ partition_point p xs
  partition_point-take zero [] h = refl
  partition_point-take zero (x ∷ xs) h = ground arith
  partition_point-take (suc n) [] h = refl
  partition_point-take (suc n) (x ∷ xs) h = ground (arith, partition_point-take n xs)

  pub partition_point-drop :
      (n : ℕ) (xs : List A)
      → n ≤ partition_point p xs
      → n + partition_point p (drop n xs) ≡ partition_point p xs
  partition_point-drop zero xs h = omega arith
  partition_point-drop (suc n) [] h = absurd (omega arith)
  partition_point-drop (suc n) (x ∷ xs) h = ground (arith, partition_point-drop n xs)

-- The end of the probes, for a list with less than half the elements that `usize` can count.
gallop_lem :
    (compare : ℕ → ℕ → Ordering) (fuel : ℕ) (xs : List ℕ) (r low high : ℕ)
    → IsPartitioned (λ slot. not_gt compare slot r) xs
    → length xs < 9223372036854775808
    → length xs ≤ fuel + high
    → low ≤ high
    → low ≤ partition_point (λ slot. not_gt compare slot r) xs
    → ((gallop compare fuel xs r low high).0 ≤ partition_point (λ slot. not_gt compare slot r) xs)
      × ((gallop compare fuel xs r low high).0
          ≤ min (gallop compare fuel xs r low high).1 (length xs))
      × (partition_point (λ slot. not_gt compare slot r) xs ≤ (gallop compare fuel xs r low high).1)
unfolding gallop
gallop_lem compare zero xs r low high part small enough le below =
    omega (arith, partition_point-le (λ slot. not_gt compare slot r) xs)
gallop_lem compare (suc fuel) xs r low high part small enough le below = ground (
  arith,
  partition_point-le (λ slot. not_gt compare slot r) xs,
  lt_of_holds (λ slot. not_gt compare slot r) xs high part,
  le_of_fails (λ slot. not_gt compare slot r) xs high,
  gallop_lem compare fuel xs r (high + 1) (next_probe high) part small,
)

module _ (compare : ℕ → ℕ → Ordering) (o : IsOrder compare) where
  Below-IsPartitioned :
      (r x : ℕ) (xs : List ℕ)
      → not_gt compare x r ≡ false
      → Below compare x xs
      → All (λ y. not_gt compare y r ≡ false) xs
  Below-IsPartitioned r x [] e b = tt
  Below-IsPartitioned r x (y ∷ xs) e b =
      (ground (arith, o.trans x y r b.0), Below-IsPartitioned r x xs e b.1)

  IsSorted-IsPartitioned :
      (r : ℕ) (xs : List ℕ) → IsSorted compare xs → IsPartitioned (λ slot. not_gt compare slot r) xs
  IsSorted-IsPartitioned r [] s = tt
  IsSorted-IsPartitioned r (x ∷ xs) s =
      ((λ e. Below-IsPartitioned r x xs e s.0), IsSorted-IsPartitioned r xs s.1)

  -- In a sorted slice the galloping search stops at the first slot that is greater.
  pub locate_lem :
      (xs : List ℕ) (r : ℕ)
      → IsSorted compare xs
      → length xs < 9223372036854775808
      → locate compare xs r ≡ partition_point (λ slot. not_gt compare slot r) xs
  unfolding locate
  locate_lem xs r s small =
      let p = λ (slot : ℕ). not_gt compare slot r in
      let low = (gallop compare (length xs) xs r 0 0).0 in
      let end = min (gallop compare (length xs) xs r 0 0).1 (length xs) in
      let found =
        gallop_lem compare (length xs) xs r 0 0 (IsSorted-IsPartitioned r xs s) small (omega arith)
          (omega arith) (omega arith) in
      omega (
        arith,
        found,
        partition_point-le p xs,
        partition_point-drop p low xs found.0,
        partition_point-take p (end - low) (drop low xs)
            (omega (arith, found, partition_point-le p xs, partition_point-drop p low xs found.0)),
      )

  pub IsSorted-drop : (n : ℕ) (xs : List ℕ) → IsSorted compare xs → IsSorted compare (drop n xs)
  IsSorted-drop zero xs s = s
  IsSorted-drop (suc n) [] s = tt
  IsSorted-drop (suc n) (x ∷ xs) s = IsSorted-drop n xs s.1

-- A merge with one more new slot cuts the old slots at the partition point.
pub merge-cut :
    (compare : ℕ → ℕ → Ordering) (xs : List ℕ) (r : ℕ) (rs : List ℕ)
    → let n = partition_point (λ slot. not_gt compare slot r) xs in
      merge compare xs (r ∷ rs) ≡ take n xs ++ (r ∷ merge compare (drop n xs) rs)
unfolding merge
merge-cut compare [] r rs = refl
merge-cut compare (x ∷ xs) r rs = elim (Bool-cases (not_gt compare x r)) [
  | inl e ↦ rw (e, merge) (ap (◌∷◌ x) (merge-cut compare xs r rs))
  | inr e ↦ rw (e, merge)
]
