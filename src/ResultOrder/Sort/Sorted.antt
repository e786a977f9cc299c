-- ===== src/ResultOrder/Sort/Sorted.antt =====
-- The sort returns a sorted permutation, unless a load finds the flag set.
use apfsearch.Prelude.{
  ℕ, zero, suc, ◌+◌, ◌*◌, ◌%◌, if◌then◌else◌, ◌≤◌, ◌<◌, ◌≡◌, refl, subst, Bool, true, false, List,
  Ordering, min, leb, ltb, length, usize_max, arith, Bool-cases, inl, inr, ◌⊎◌, take-all,
}
use mathlib.Core.List.{Perm}
use mathlib.Core.List.Perm
use apfsearch.Result.{Result, Error, err, ok, cancelled}
use apfsearch.OrderedMerge.Order.{IsOrder, IsSorted}
use apfsearch.ResultOrder.Sort.{Sorter, run_length, sort_chunks, merge_passes, sort_slots}
use apfsearch.ResultOrder.Sort.Merged.{
  Outcome-cast, IsStopped, Unset, Unset-none, Unset-append, halts_early, halts_late, chunk_count,
}
use apfsearch.ResultOrder.Sort.Runs.{HasRuns}
use apfsearch.ResultOrder.Sort.Passes.{
  Arranged, Perm-length, at_most, sort_chunks-Outcome, merge_pass-Outcome,
}

-- The loads of the passes over `n` slots, whose widths double up to the number of slots, and all
-- loads of the sort: each time one for every 1024 slots that begin.
abbrev pass_loads : ℕ → ℕ → ℕ → ℕ
pass_loads zero width n = 0
pass_loads (suc fuel) width n =
    if ltb width n then chunk_count n + pass_loads fuel (min (width * 2) usize_max) n else 0

abbrev pub sort_loads : ℕ → ℕ
sort_loads n = chunk_count n + pass_loads n run_length n

no_passes : (n : ℕ) → leb n run_length ≡ true → chunk_count n ≡ sort_loads n
no_passes zero h = refl
no_passes (suc n) h =
    let done : ltb run_length (suc n) ≡ false = ground arith in rw done (omega arith)

doubled_whole :
    (width n : ℕ)
    → n ≤ usize_max
    → width % 1024 ≡ 0
    → min (width * 2) usize_max < n
    → min (width * 2) usize_max % 1024 ≡ 0
doubled_whole width n small h more =
    let same : min (width * 2) usize_max ≡ width * 2 = omega arith in rw same (omega arith)

module _ (sorter : Sorter) (compare : ℕ → ℕ → Ordering) (o : IsOrder compare)
    (flag : ℕ → Bool) where
  -- Sorted after all the loads, or stopped by one.
  abbrev Sorted : ℕ → ℕ → List ℕ → Result (List ℕ) → Type 0
  Sorted from to slots r =
      IsStopped flag from to r
      ⊎ ((s : List ℕ) × ((r ≡ ok s) × ((Perm s slots × IsSorted compare s) × Unset flag from to)))

  continued :
      (from mid to : ℕ) (slots s : List ℕ) (r : Result (List ℕ))
      → from ≤ mid
      → Unset flag from mid
      → Perm s slots
      → Sorted mid to s r
      → Sorted from to slots r
  continued from mid to slots s r le u p (inl stop) = inl (halts_late flag from mid to r le u stop)
  continued from mid to slots s r le u p (inr (t, (g, ((p', sorted), v)))) =
      inr (t, (g, ((Perm.trans p' p, sorted), Unset-append flag from mid to u v)))

  finished :
      (loads to : ℕ) (slots : List ℕ)
      → loads ≡ to
      → IsSorted compare slots
      → Sorted loads to slots (ok slots)
  finished loads to slots e sorted =
      inr (slots, (refl, ((Perm.refl slots, sorted), rw (← e) (Unset-none flag loads))))

  arranged_enough :
      (width : ℕ) (s : List ℕ) → length s ≤ width → HasRuns compare width s → IsSorted compare s
  arranged_enough width s h r = subst (IsSorted compare) (take-all width s h) (r 1).0

  merge_passes-outcome :
      (fuel width loads : ℕ) (slots : List ℕ)
      → length slots ≤ width + fuel
      → length slots ≤ usize_max
      → 0 < width
      → (width < length slots → width % 1024 ≡ 0)
      → HasRuns compare width slots
      → Sorted loads
          (loads + pass_loads fuel width (length slots))
          slots
          (merge_passes sorter compare flag fuel width loads slots)
  unfolding merge_passes
  merge_passes-outcome zero width loads slots h small pos whole r =
      let few : ltb width (length slots) ≡ false = ground arith in
      rw few (
        finished loads (loads + 0) slots (omega arith)
          (arranged_enough width slots (omega arith) r))
  merge_passes-outcome (suc fuel) width loads slots h small pos whole r =
      elim (Bool-cases (ltb width (length slots))) [
        | inl e ↦
            let doubled = min (width * 2) usize_max in
            let mid = loads + chunk_count (length slots) in
            let to =
              loads + (chunk_count (length slots) + pass_loads fuel doubled (length slots)) in
            rw (e, merge_passes)
              (elim (merge_pass-Outcome sorter compare o flag (length slots) width loads slots
                (omega arith) small pos whole r) [
                  | inl (k, (n, stop)) ↦
                      inl (halts_early flag _ loads mid to n (rw k refl) (omega arith) stop)
                  | inr (s, (k, ((p, q), u))) ↦
                      let same : length s ≡ length slots = Perm-length p in
                      let last : mid + pass_loads fuel doubled (length s) ≡ to =
                        rw same (omega arith) in
                      rw (k, merge_passes)
                        (continued loads mid to slots s _ (omega arith) u p (
                          subst
                            (λ m.
                              Sorted mid m s (merge_passes sorter compare flag fuel doubled mid s))
                            last
                            (merge_passes-outcome fuel doubled mid s (ground (arith, same))
                              (omega (arith, same)) (omega arith)
                              (λ more.
                                doubled_whole width (length s) (omega (arith, same))
                                  (whole (ground arith)) more)
                              q)))
                ])
        | inr n ↦
            rw (n, merge_passes)
              (finished loads (loads + 0) slots (omega arith)
                (arranged_enough width slots (ground arith) r))
      ]

  sort_slots-outcome :
      (slots : List ℕ)
      → length slots ≤ usize_max
      → Sorted 0 (sort_loads (length slots)) slots (sort_slots sorter compare flag slots)
  unfolding sort_slots
  sort_slots-outcome slots small =
      let mid = chunk_count (length slots) in
      let to = sort_loads (length slots) in
      let chunks = sort_chunks sorter compare flag (length slots) 0 slots in
      elim (Outcome-cast flag (Arranged sorter compare o flag run_length slots) 0 (0 + mid) mid
        chunks (omega arith)
        (sort_chunks-Outcome sorter compare o flag (length slots) 0 slots (omega arith))) [
          | inl (e, (n, stop)) ↦ inl (halts_early flag _ 0 mid to n (rw e refl) (omega arith) stop)
          | inr (s, (e, ((p, q), u))) ↦
              let same : length s ≡ length slots = Perm-length p in
              rw e (
                continued 0 mid to slots s _ (omega arith) u p
                  (elim (Bool-cases (leb (length slots) run_length)) [
                    | inl few ↦ rw few (
                        finished mid to s (no_passes (length slots) few) (
                          arranged_enough run_length s (at_most (length s) (length slots) same few)
                            q))
                    | inr many ↦
                        let last : mid + pass_loads (length slots) run_length (length s) ≡ to =
                          rw same refl in
                        rw many (
                          subst
                            (λ m.
                              Sorted mid m s
                                (merge_passes sorter compare flag (length slots) run_length mid s))
                            last
                            (merge_passes-outcome (length slots) run_length mid s
                              (omega (arith, same)) (omega (arith, same)) (omega arith)
                              (λ more. refl) q))
                  ]))
        ]

-- While the flag is not set, `sort_slots` returns the slots in an order that is sorted by the
-- comparison, if that is a total preorder and the number of slots a `usize`.
pub sort_slots-returns :
    (sorter : Sorter) (compare : ℕ → ℕ → Ordering) (flag : ℕ → Bool) (slots : List ℕ)
    → IsOrder compare
    → ((loads : ℕ) → flag loads ≡ false)
    → length slots ≤ usize_max
    → (s : List ℕ) × ((sort_slots sorter compare flag slots ≡ ok s)
        × (Perm s slots × IsSorted compare s))
sort_slots-returns sorter compare flag slots o unset small =
    elim (sort_slots-outcome sorter compare o flag slots small) [
      | inl (e, (n, (a, (b, (h, u))))) ↦ cc (h, unset n)
      | inr (t, (e, (found, u))) ↦ (t, (e, found))
    ]

-- The loads of the flag are `sort_loads` in number unless one stops the sort: one for every 1024
-- slots that begin, in the runs and in each pass. If one of them finds the flag set, the sort is
-- cancelled; an error of it is always the cancellation, by the first of these loads that finds the
-- flag set; and a result is the slots in sorted order. The comparison is a total preorder, and the
-- number of slots a `usize`.
pub sort_slots-cancelled :
    (sorter : Sorter) (compare : ℕ → ℕ → Ordering) (flag : ℕ → Bool) (slots : List ℕ)
    → IsOrder compare
    → length slots ≤ usize_max
    → ((n : ℕ)
        → n < sort_loads (length slots)
        → flag n ≡ true
        → sort_slots sorter compare flag slots ≡ err cancelled)
      × (((e : Error)
            → sort_slots sorter compare flag slots ≡ err e
            → (e ≡ cancelled)
              × ((n : ℕ) × ((n < sort_loads (length slots)) × ((flag n ≡ true) × Unset flag 0 n))))
          × ((s : List ℕ)
              → sort_slots sorter compare flag slots ≡ ok s
              → Perm s slots × IsSorted compare s))
sort_slots-cancelled sorter compare flag slots o small =
    elim (sort_slots-outcome sorter compare o flag slots small) [
      | inl (k, (n, (a, (b, (h, u))))) ↦
          (λ m less set. k, (λ e g. (cc, (n, (b, (h, u)))), λ s g. cc))
      | inr (t, (k, ((p, q), u))) ↦ (
        λ m less set. cc (u m (omega arith) less, set),
        (
          λ e g. cc,
          λ s g.
              let same : t ≡ s = cc in subst (λ v. Perm v slots × IsSorted compare v) same (p, q),
        ),
      )
    ]
