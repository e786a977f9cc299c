-- ===== src/ResultOrder/Sort/Passes.antt =====
-- The chunks, and the passes that merge them: each makes runs of its width.
use apfsearch.Prelude.{
  ℕ, zero, suc, ◌+◌, ◌-◌, ◌*◌, ◌%◌, ltb, ◌≤◌, ◌<◌, ◌≡◌, refl, sym, ap, ◌∙◌, subst, Bool, true, List,
  [], ◌∷◌, ◌++◌, Ordering, min, leb, length, take, drop, usize_max, arith, Bool-cases, inl, inr,
  ◌⊎◌, length-drop, length-take, take-append-drop,
}
use native.Mathlib.Nat.{ℕ_set}
use mathlib.Core.Logic.{∥∥₁_elim}
use mathlib.Core.List.{Perm, Permᴰ}
use mathlib.Core.List.Perm
use apfsearch.Result.{ok, ◌>>=◌}
use apfsearch.OrderedMerge.Order.{IsOrder, merge}
use apfsearch.ResultOrder.Sort.{Sorter, run_length, sort_chunks, merge_runs, merge_pass}
use apfsearch.ResultOrder.Sort.Merged.{
  Outcome, Outcome->>=, Outcome-cast, after, done, halts_here, Unset-one, Unset-none, chunk_count,
  checks, checks-chunk_count, load-outcome, merge_runs-Outcome,
}
use apfsearch.ResultOrder.Sort.Runs.{
  HasRuns, HasRuns-append, drop-doubled, merged, merged-perm, merged-HasRuns,
}

same_lengths : {l m : List ℕ} → Permᴰ l m → length l ≡ length m
same_lengths Permᴰ.nil = refl
same_lengths (Permᴰ.cons e d) = ap suc (same_lengths d)
same_lengths (Permᴰ.swap e f) = refl
same_lengths (Permᴰ.trans d e) = same_lengths d ∙ same_lengths e

pub Perm-length : {l m : List ℕ} → Perm l m → length l ≡ length m
Perm-length {l} {m} p = ∥∥₁_elim p (ℕ_set (length l) (length m)) same_lengths

pub at_most : (a n : ℕ) → a ≡ n → leb n run_length ≡ true → a ≤ run_length
at_most a n h k = ground arith

full_or_last : (a b n : ℕ) → a ≡ min run_length n → b ≡ n - run_length → (a ≡ run_length) ⊎ (b ≡ 0)
full_or_last a b n h k = elim (Bool-cases (leb run_length n)) [
  | inl e ↦ inl (ground arith)
  | inr m ↦ inr (ground arith)
]

chunks_positive : (loads n : ℕ) → loads < loads + chunk_count (suc n)
chunks_positive loads n = omega arith

-- The slots of a pair of runs and those behind it begin as many chunks as all slots.
pass_step :
    (width n both : ℕ)
    → 0 < width
    → n ≤ usize_max
    → (width < n → width % 1024 ≡ 0)
    → both ≡ min width n + min width (n - width)
    → chunk_count both + chunk_count (n - min (width * 2) usize_max) ≡ chunk_count n
pass_step width n both pos small whole e = elim (Bool-cases (ltb width n)) [
  | inl more ↦
      let less : width < n = ground arith in
      let multiple : width % 1024 ≡ 0 = whole less in omega arith
  | inr few ↦ let all : n ≤ width = ground arith in omega arith
]

both_runs :
    (width : ℕ) (l : List ℕ)
    → length (take width l) + length (take width (drop width l))
      ≡ min width (length l) + min width (length l - width)
both_runs width l =
    rw (length-take width l, length-take width (drop width l), length-drop width l) refl

last_load :
    (loads c both rest n doubled : ℕ)
    → c ≡ chunk_count both
    → rest ≡ n - doubled
    → chunk_count both + chunk_count (n - doubled) ≡ chunk_count n
    → loads + c + chunk_count rest ≡ loads + chunk_count n
last_load loads c both rest n doubled h size sum = rw (h, size) (omega (arith, sum))

module _ (sorter : Sorter) (compare : ℕ → ℕ → Ordering) (o : IsOrder compare)
    (flag : ℕ → Bool) where
  -- A permutation in sorted runs.
  abbrev pub Arranged : ℕ → List ℕ → List ℕ → Type 0
  Arranged width slots s = Perm s slots × HasRuns compare width s

  none_sorted : (width : ℕ) → HasRuns compare width []
  none_sorted width zero = tt
  none_sorted zero (suc k) = (tt, none_sorted zero k)
  none_sorted (suc width) (suc k) = (tt, none_sorted (suc width) k)

  arrange_first :
      (s : List ℕ) (slots : List ℕ)
      → Perm s (drop run_length slots)
      → HasRuns compare run_length s
      → Arranged run_length slots (sorter.sort compare (take run_length slots) ++ s)
  arrange_first s slots p h =
      let chunk = sorter.sort compare (take run_length slots) in
      let same : length chunk ≡ length (take run_length slots) =
        Perm-length (sorter.perm compare (take run_length slots)) in
      let size : length s ≡ length slots - run_length =
        Perm-length p ∙ length-drop run_length slots in
      let full : (length chunk ≡ run_length) ⊎ (length s ≡ 0) =
        full_or_last (length chunk) (length s) (length slots) (same ∙ length-take run_length slots)
          size in
      (
        subst (λ m. Perm (chunk ++ s) m) (take-append-drop run_length slots)
            (Perm.append (sorter.perm compare (take run_length slots)) p),
        HasRuns-append compare run_length chunk s full (omega (arith, length-take run_length slots))
            (sorter.sorted compare (take run_length slots) o) h,
      )

  pub sort_chunks-Outcome :
      (fuel loads : ℕ) (slots : List ℕ)
      → length slots ≤ fuel
      → Outcome flag loads
          (loads + chunk_count (length slots))
          (Arranged run_length slots)
          (sort_chunks sorter compare flag fuel loads slots)
  unfolding sort_chunks
  sort_chunks-Outcome fuel loads [] h =
      Outcome-cast flag (Arranged run_length []) loads loads (loads + 0) (ok (loads, []))
        (omega arith)
        (done flag (Arranged run_length []) loads [] (Perm.refl [], none_sorted run_length))
  sort_chunks-Outcome zero loads (s ∷ slots) h = absurd (omega arith)
  sort_chunks-Outcome (suc fuel) loads (s ∷ slots) h =
      let l = s ∷ slots in
      let to = loads + chunk_count (length l) in
      let chunk = sorter.sort compare (take run_length l) in
      let behind = drop run_length l in
      elim (load-outcome sorter compare flag loads) [
        | inl (e, k) ↦
            inl (halts_here flag _ loads to (rw e refl) (chunks_positive loads (length slots)) k)
        | inr (e, k) ↦
            let less : length behind ≤ fuel = omega (arith, length-drop run_length l) in
            let last : loads + 1 + chunk_count (length behind) ≡ to =
              omega (arith, length-drop run_length l) in
            let rest = sort_chunks sorter compare flag fuel (loads + 1) behind in
            rw (e, sort_chunks)
              (after flag (λ t. chunk ++ t) (Arranged run_length behind) (Arranged run_length l)
                loads (loads + 1) to rest (omega arith) (Unset-one flag loads k)
                (Outcome-cast flag (Arranged run_length behind) (loads + 1)
                  (loads + 1 + chunk_count (length behind)) to rest last
                  (sort_chunks-Outcome fuel (loads + 1) behind less))
                (λ t (p, r). arrange_first t l p r))
      ]

  arrange_more :
      (width : ℕ) (l t m : List ℕ)
      → length l ≤ usize_max
      → HasRuns compare width l
      → m ≡ merged compare width l
      → Perm t (drop (min (width * 2) usize_max) l)
      → HasRuns compare (min (width * 2) usize_max) t
      → Arranged (min (width * 2) usize_max) l (m ++ t)
  arrange_more width l t m small r e p q =
      let same = drop-doubled compare width l small in
      rw e (
        merged-perm compare width l t (subst (Perm t) same p),
        merged-HasRuns compare width l t o small r (Perm-length p ∙ ap length same) q,
      )

  pub merge_pass-Outcome :
      (fuel width loads : ℕ) (slots : List ℕ)
      → length slots ≤ fuel
      → length slots ≤ usize_max
      → 0 < width
      → (width < length slots → width % 1024 ≡ 0)
      → HasRuns compare width slots
      → Outcome flag loads
          (loads + chunk_count (length slots))
          (Arranged (min (width * 2) usize_max) slots)
          (merge_pass sorter compare flag fuel width loads slots)
  unfolding merge_pass
  merge_pass-Outcome fuel width loads [] h small pos whole r =
      let doubled = min (width * 2) usize_max in
      Outcome-cast flag (Arranged doubled []) loads loads (loads + 0) (ok (loads, [])) (omega arith)
        (done flag (Arranged doubled []) loads [] (Perm.refl [], none_sorted doubled))
  merge_pass-Outcome zero width loads (s ∷ slots) h small pos whole r = absurd (omega arith)
  merge_pass-Outcome (suc fuel) width loads (s ∷ slots) h small pos whole r =
      let l = s ∷ slots in
      let doubled = min (width * 2) usize_max in
      let left = take width l in
      let right = take width (drop width l) in
      let both = length left + length right in
      let behind : HasRuns compare width (drop width (drop width l)) = λ k. (r (suc (suc k))).1.1 in
      let size : length (drop doubled l) ≡ length l - doubled = length-drop doubled l in
      let less : length (drop doubled l) ≤ fuel = omega (arith, size) in
      let rest_runs : HasRuns compare width (drop doubled l) =
        subst (HasRuns compare width) (sym (drop-doubled compare width l small)) behind in
      let mid = loads + checks 0 both in
      let to = loads + chunk_count (length l) in
      let sum : chunk_count both + chunk_count (length l - doubled) ≡ chunk_count (length l) =
        pass_step width (length l) both pos small whole (both_runs width l) in
      let last : mid + chunk_count (length (drop doubled l)) ≡ to =
        last_load loads (checks 0 both) both (length (drop doubled l)) (length l) doubled
          (checks-chunk_count both) size sum in
      Outcome->>= flag (λ m. m ≡ merge compare left right) (Arranged doubled l) loads mid to
        (merge_runs sorter compare flag both 0 loads left right)
        (λ m. merge_pass sorter compare flag fuel width m.0 (drop doubled l) >>= λ rest.
          ok (rest.0, m.1 ++ rest.1))
        (omega arith) (omega (arith, last))
        (merge_runs-Outcome sorter compare flag both 0 loads left right refl)
        (λ m e.
          after flag (λ t. m ++ t) (Arranged doubled (drop doubled l)) (Arranged doubled l) mid mid
            to (merge_pass sorter compare flag fuel width mid (drop doubled l)) (omega arith)
            (Unset-none flag mid)
            (Outcome-cast flag (Arranged doubled (drop doubled l)) mid
              (mid + chunk_count (length (drop doubled l))) to
              (merge_pass sorter compare flag fuel width mid (drop doubled l)) last
              (merge_pass-Outcome fuel width mid (drop doubled l) less (omega (arith, size)) pos
                (λ more. whole (omega (arith, size))) rest_runs))
            (λ t (p, q). arrange_more width l t m small r e p q))
