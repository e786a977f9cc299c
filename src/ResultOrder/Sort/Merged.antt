-- ===== src/ResultOrder/Sort/Merged.antt =====
-- Merging two runs gives their stable merge, or stops at a load that finds the flag set.
use apfsearch.Prelude.{
  ℕ, zero, suc, ◌+◌, ◌%◌, ◌≡◌, ◌≢◌, ◌≤◌, ◌<◌, ◌/◌, false, ltb, subst, refl, sym, ap, ◌∙◌, Bool,
  true, some, List, [], ◌∷◌, Ordering, ◌==◌, if◌then◌else◌, length, arith, Bool-cases, inl, inr,
  ◌⊎◌,
}
use apfsearch.Result.{Result, err, ok, cancelled, ◌>>=◌}
use apfsearch.OrderedMerge.{not_gt}
use apfsearch.OrderedMerge.Order.{merge}
use apfsearch.ResultOrder.Sort.{Sorter, run_length, load, take_one, merge_runs}

-- Loads number `from` up to `to`, without `to`, found the flag not set.
abbrev pub Unset : (ℕ → Bool) → ℕ → ℕ → Type 0
Unset flag from to = (k : ℕ) → from ≤ k → k < to → flag k ≡ false

-- Stopped by the first of these loads that found the flag set.
abbrev pub IsStopped {ℓ} : {T : Type ℓ} → (ℕ → Bool) → ℕ → ℕ → Result T → Type ℓ
IsStopped flag from to r =
    (r ≡ err cancelled)
    × ((n : ℕ) × ((from ≤ n) × ((n < to) × ((flag n ≡ true) × Unset flag from n))))

-- Stopped, or done after exactly these loads with slots of which `P` holds.
abbrev pub Outcome : (ℕ → Bool) → ℕ → ℕ → (List ℕ → Type 0) → Result (ℕ × List ℕ) → Type 0
Outcome flag from to P r =
    IsStopped flag from to r ⊎ ((s : List ℕ) × ((r ≡ ok (to, s)) × (P s × Unset flag from to)))

module _ (flag : ℕ → Bool) where
  pub Unset-none : (n : ℕ) → Unset flag n n
  Unset-none n k h l = absurd (omega arith)

  pub Unset-one : (n : ℕ) → flag n ≡ false → Unset flag n (n + 1)
  Unset-one n h k a b = let same : k ≡ n = omega arith in rw same h

  pub Unset-append :
      (from mid to : ℕ) → Unset flag from mid → Unset flag mid to → Unset flag from to
  Unset-append from mid to u v k a b = elim (Bool-cases (ltb k mid)) [
    | inl e ↦ u k a (ground arith)
    | inr n ↦ v k (ground arith) b
  ]

  pub halts_here {ℓ} :
      {T : Type ℓ} (r : Result T) (from to : ℕ)
      → r ≡ err cancelled
      → from < to
      → flag from ≡ true
      → IsStopped flag from to r
  halts_here r from to e less h = (e, (from, (omega arith, (less, (h, Unset-none from)))))

  -- What stops before `mid`, or after it, stops before `to`.
  pub halts_early {ℓ} :
      {T : Type ℓ} (r : Result T) (from mid to n : ℕ)
      → r ≡ err cancelled
      → mid ≤ to
      → (from ≤ n) × ((n < mid) × ((flag n ≡ true) × Unset flag from n))
      → IsStopped flag from to r
  halts_early r from mid to n e le (a, (b, c)) = (e, (n, (a, (omega arith, c))))

  pub halts_late {ℓ} :
      {T : Type ℓ} (from mid to : ℕ) (r : Result T)
      → from ≤ mid
      → Unset flag from mid
      → IsStopped flag mid to r
      → IsStopped flag from to r
  halts_late from mid to r le u (e, (n, (a, (b, (c, v))))) =
      (e, (n, (omega arith, (b, (c, Unset-append from mid n u v)))))

  pub done : (P : List ℕ → Type 0) (n : ℕ) (s : List ℕ) → P s → Outcome flag n n P (ok (n, s))
  done P n s p = inr (s, (refl, (p, Unset-none n)))

  pub Outcome-cast :
      (P : List ℕ → Type 0) (from to to' : ℕ) (r : Result (ℕ × List ℕ))
      → to ≡ to'
      → Outcome flag from to P r
      → Outcome flag from to' P r
  Outcome-cast P from to to' r e = subst (λ n. Outcome flag from n P r) e

  pub Outcome->>= :
      (P Q : List ℕ → Type 0) (from mid to : ℕ) (r : Result (ℕ × List ℕ))
      (further : ℕ × List ℕ → Result (ℕ × List ℕ))
      → from ≤ mid
      → mid ≤ to
      → Outcome flag from mid P r
      → ((s : List ℕ) → P s → Outcome flag mid to Q (further (mid, s)))
      → Outcome flag from to Q (r >>= further)
  Outcome->>= P Q from mid to r further le le' (inl (e, (n, h))) f =
      inl (halts_early (r >>= further) from mid to n (rw e refl) le' h)
  Outcome->>= P Q from mid to r further le le' (inr (s, (e, (p, u)))) f = rw e (elim (f s p) [
    | inl stop ↦ inl (halts_late from mid to (further (mid, s)) le u stop)
    | inr (t, (g, (q, v))) ↦ inr (t, (g, (q, Unset-append from mid to u v)))
  ])

  -- Loads that found the flag not set, then an outcome, then a change of the slots.
  pub after :
      (f : List ℕ → List ℕ) (P Q : List ℕ → Type 0) (from mid to : ℕ) (r : Result (ℕ × List ℕ))
      → from ≤ mid
      → Unset flag from mid
      → Outcome flag mid to P r
      → ((s : List ℕ) → P s → Q (f s))
      → Outcome flag from to Q (r >>= λ rest. ok (rest.0, f rest.1))
  after f P Q from mid to r le u (inl stop) g =
      let (e, h) = halts_late from mid to r le u stop in inl (rw e refl, h)
  after f P Q from mid to r le u (inr (s, (e, (p, v)))) g =
      rw e (inr (f s, (refl, (g s p, Unset-append from mid to u v))))

-- How many loads there are for so many slots: one for each 1024 that begin.
abbrev pub chunk_count : ℕ → ℕ
chunk_count n = (n + 1023) / 1024

-- The loads before so many destinations from a position on.
abbrev tick : ℕ → ℕ
tick position = if position % run_length == 0 then 1 else 0

abbrev pub checks : ℕ → ℕ → ℕ
checks position zero = 0
checks position (suc count) = tick position + checks (position + 1) count

tick_lem : (position : ℕ) → tick position + (position + 1023) / 1024 ≡ (position + 1024) / 1024
tick_lem position = elim (Bool-cases (position % 1024 == 0)) [
  | inl e ↦ let whole : position % 1024 ≡ 0 = ground arith in rw e (omega arith)
  | inr n ↦ let part : position % 1024 ≢ 0 = ground arith in rw n (omega arith)
]

checks_lem :
    (count position : ℕ)
    → checks position count + (position + 1023) / 1024 ≡ (position + count + 1023) / 1024
checks_lem zero position = omega arith
checks_lem (suc count) position = omega (arith, tick_lem position, checks_lem count (position + 1))

pub checks-chunk_count : (count : ℕ) → checks 0 count ≡ chunk_count count
checks-chunk_count count = omega (arith, checks_lem count 0)

module _ (sorter : Sorter) (compare : ℕ → ℕ → Ordering) (flag : ℕ → Bool) where
  -- A load stops, or raises the number of loads.
  pub load-outcome :
      (loads : ℕ)
      → ((load sorter compare flag loads ≡ err cancelled) × (flag loads ≡ true))
        ⊎ ((load sorter compare flag loads ≡ ok (loads + 1)) × (flag loads ≡ false))
  load-outcome loads = elim (Bool-cases (flag loads)) [
    | inl e ↦ inl (rw e refl, e)
    | inr n ↦ inr (rw n refl, n)
  ]

  -- The load before every destination whose position is a multiple of the run length.
  abbrev checked : ℕ → ℕ → Result ℕ
  checked position loads =
      if position % run_length == 0 then load sorter compare flag loads else ok loads

  checked-outcome :
      (position loads : ℕ)
      → ((checked position loads ≡ err cancelled) × ((flag loads ≡ true) × (tick position ≡ 1)))
        ⊎ ((checked position loads ≡ ok (loads + tick position))
            × Unset flag loads (loads + tick position))
  checked-outcome position loads = elim (Bool-cases (position % run_length == 0)) [
    | inl e ↦ elim (load-outcome loads) [
      | inl (k, h) ↦ inl (rw e k, (h, rw e refl))
      | inr (k, h) ↦ inr (rw e k, rw e (Unset-one flag loads h))
    ]
    | inr n ↦
        let same : loads + 0 ≡ loads = omega arith in
        inr (rw (n, same) refl, rw (n, same) (Unset-none flag loads))
  ]

  merge-nil : (old : List ℕ) → merge compare old [] ≡ old
  unfolding merge
  merge-nil [] = refl
  merge-nil (x ∷ old) = refl

  -- A destination gets the first slot of the merge.
  take_one_lem :
      (count : ℕ) (left right : List ℕ)
      → suc count ≡ length left + length right
      → (slot : ℕ) × ((l : List ℕ) × ((r : List ℕ) × ((take_one sorter compare flag left right
                ≡ some (slot, (l, r)))
              × ((count ≡ length l + length r)
                  × (merge compare left right ≡ slot ∷ merge compare l r)))))
  unfolding take_one merge
  take_one_lem count [] [] h = absurd (omega arith)
  take_one_lem count [] (r ∷ right) h = (r, ([], (right, (refl, (omega arith, refl)))))
  take_one_lem count (l ∷ left) [] h =
      (l, (left, ([], (refl, (omega arith, ap (λ m. l ∷ m) (sym (merge-nil left)))))))
  take_one_lem count (l ∷ left) (r ∷ right) h = elim (Bool-cases (not_gt compare l r)) [
    | inl e ↦ (l, (left, (r ∷ right, (rw e refl, (omega arith, rw (e, merge) refl)))))
    | inr n ↦ (r, (l ∷ left, (right, (rw n refl, (omega arith, rw (n, merge) refl)))))
  ]

  pub merge_runs-Outcome :
      (count position loads : ℕ) (left right : List ℕ)
      → count ≡ length left + length right
      → Outcome flag loads
          (loads + checks position count)
          (λ s. s ≡ merge compare left right)
          (merge_runs sorter compare flag count position loads left right)
  unfolding merge_runs merge
  merge_runs-Outcome zero position loads [] [] h =
      Outcome-cast flag (λ s. s ≡ []) loads loads (loads + 0) (ok (loads, [])) (omega arith)
        (done flag (λ s. s ≡ []) loads [] refl)
  merge_runs-Outcome zero position loads (l ∷ left) right h = absurd (omega arith)
  merge_runs-Outcome zero position loads [] (r ∷ right) h = absurd (omega arith)
  merge_runs-Outcome (suc count) position loads left right h =
      let mid = loads + tick position in
      let to = loads + (tick position + checks (position + 1) count) in
      let last : mid + checks (position + 1) count ≡ to = omega arith in
      elim (checked-outcome position loads) [
        | inl (e, (k, one)) ↦ inl (halts_here flag _ loads to (rw e refl) (omega (arith, one)) k)
        | inr (e, u) ↦
            let (slot, (l, (r, (one, (less, first))))) = take_one_lem count left right h in
            let whole = λ (s : List ℕ). s ≡ merge compare left right in
            let turn = merge_runs sorter compare flag count (position + 1) mid l r in
            rw (e, one, merge_runs)
              (after flag (λ s. slot ∷ s) (λ s. s ≡ merge compare l r) whole loads mid to turn
                (omega arith) u
                (Outcome-cast flag (λ s. s ≡ merge compare l r) mid
                  (mid + checks (position + 1) count) to turn last
                  (merge_runs-Outcome count (position + 1) mid l r less))
                (λ s p. ap (λ t. slot ∷ t) p ∙ sym first))
      ]
