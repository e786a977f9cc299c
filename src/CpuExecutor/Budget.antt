-- ===== src/CpuExecutor/Budget.antt =====
-- What holds of the budget in every interleaving.
use apfsearch.Prelude.{
  ℕ, zero, suc, ◌+◌, ◌≤◌, ◌<◌, ◌≡◌, refl, List, [], ◌∷◌, ◌++◌, length, replicate, length-append,
  length-replicate, arith, All,
}
use apfsearch.CpuExecutor.{WorkerBudget, new, Phase, idle, Access, Reachable, start, next}
use apfsearch.CpuExecutor.Balanced.{held, waits, waits_foreground, in_background, access-IsBalanced}

-- The sum over the threads.
abbrev pub total : (Phase → ℕ) → List Phase → ℕ
total f [] = 0
total f (p ∷ threads) = f p + total f threads

total-append :
    (f : Phase → ℕ) (before behind : List Phase) (p : Phase)
    → total f (before ++ (p ∷ behind)) ≡ f p + (total f before + total f behind)
total-append f [] behind p = omega arith
total-append f (q ∷ before) behind p = omega (arith, total-append f before behind p)

total-replicate : (f : Phase → ℕ) (n : ℕ) → f idle ≡ 0 → total f (replicate n idle) ≡ 0
total-replicate f zero e = refl
total-replicate f (suc n) e = omega (arith, total-replicate f n e)

total_le :
    (f : Phase → ℕ)
    → ((p : Phase) → f p ≤ 1)
    → (threads : List Phase) → total f threads ≤ length threads
total_le f h [] = omega arith
total_le f h (p ∷ threads) = omega (arith, h p, total_le f h threads)

waits_le : (p : Phase) → waits p ≤ 1
waits_le p = ground arith

waits_foreground_le : (p : Phase) → waits_foreground p ≤ 1
waits_foreground_le p = ground arith

in_background_le : (p : Phase) → in_background p ≤ 1
in_background_le p = ground arith

-- The counters are those that the threads' phases add up to.
abbrev pub IsAccounted : ℕ → ℕ → WorkerBudget → List Phase → Type 0
IsAccounted capacity n b threads =
    (length threads ≡ n)
    × (b.available + total held threads ≡ capacity)
    × (b.waiters ≡ total waits threads)
    × (b.foreground_waiters ≡ total waits_foreground threads)
    × (b.background_active ≡ total in_background threads)

same_budget :
    (b : WorkerBudget) (capacity : ℕ)
    → b.available ≡ capacity
    → b.foreground_waiters ≡ 0
    → b.waiters ≡ 0
    → b.background_active ≡ 0
    → b ≡ new capacity
unfolding new
same_budget b capacity a f w g = cc

-- The sum over a part of the threads leaves room for one more.
others_below :
    (f : Phase → ℕ) (before behind : List Phase) (p : Phase)
    → ((q : Phase) → f q ≤ 1)
    → length (before ++ (p ∷ behind)) < 18446744073709551616
    → total f before + total f behind + 1 < 18446744073709551616
others_below f before behind p h l =
    omega (arith, length-append before (p ∷ behind), total_le f h before, total_le f h behind)

access-IsAccounted :
    (capacity n : ℕ) (b b' : WorkerBudget) (p p' : Phase) (before behind : List Phase)
    → capacity < 18446744073709551616
    → n < 18446744073709551616
    → IsAccounted capacity n b (before ++ (p ∷ behind))
    → Access b p b' p'
    → IsAccounted capacity n b' (before ++ (p' ∷ behind))
access-IsAccounted capacity n b b' p p' before behind small few (l, k, w, f, g) a =
    let others = λ (c : Phase → ℕ). total c before + total c behind in
    let length_p = length-append before (p ∷ behind) in
    let length_p' = length-append before (p' ∷ behind) in
    let below = λ (c : Phase → ℕ) (h : (q : Phase) → c q ≤ 1).
      others_below c before behind p h (omega arith) in
    let (k', w', f', g') =
      access-IsBalanced capacity (others held) (others waits) (others waits_foreground)
        (others in_background) small (below waits waits_le)
        (below waits_foreground waits_foreground_le) (below in_background in_background_le) b b' p
        p' a
        (
          omega (arith, total-append held before behind p),
          omega (arith, total-append waits before behind p),
          omega (arith, total-append waits_foreground before behind p),
          omega (arith, total-append in_background before behind p),
        ) in
    (
      omega arith,
      omega (arith, total-append held before behind p'),
      omega (arith, total-append waits before behind p'),
      omega (arith, total-append waits_foreground before behind p'),
      omega (arith, total-append in_background before behind p'),
    )

-- In every interleaving of the accesses of fewer than 2^64 threads, the available workers and the
-- workers of all permits add up to the capacity, and each counter of waiting requests and of
-- background permits is the number of threads that it stands for: no counter wraps round.
pub reachable-IsAccounted :
    (capacity n : ℕ) (b : WorkerBudget) (threads : List Phase)
    → capacity < 18446744073709551616
    → n < 18446744073709551616
    → Reachable capacity n b threads
    → IsAccounted capacity n b threads
unfolding new
reachable-IsAccounted capacity n _ _ small few start = (
  length-replicate n idle,
  omega (arith, total-replicate held n refl),
  omega (arith, total-replicate waits n refl),
  omega (arith, total-replicate waits_foreground n refl),
  omega (arith, total-replicate in_background n refl),
)
reachable-IsAccounted capacity n _ _ small few (next b b' p p' before behind r a) =
    access-IsAccounted capacity n b b' p p' before behind small few
      (reachable-IsAccounted capacity n b (before ++ (p ∷ behind)) small few r) a

total-idle :
    (f : Phase → ℕ) (threads : List Phase)
    → f idle ≡ 0
    → All (λ p. p ≡ idle) threads
    → total f threads ≡ 0
total-idle f [] e h = refl
total-idle f (p ∷ threads) e (same, h) = rw same (omega (arith, total-idle f threads e h))

-- When every thread has come back, whatever was granted, cancelled and dropped on the way, the
-- budget is as it was made.
pub idle_restores :
    (capacity n : ℕ) (b : WorkerBudget) (threads : List Phase)
    → capacity < 18446744073709551616
    → n < 18446744073709551616
    → Reachable capacity n b threads
    → All (λ p. p ≡ idle) threads
    → b ≡ new capacity
unfolding new
idle_restores capacity n b threads small few r h =
    let (l, k, w, f, g) = reachable-IsAccounted capacity n b threads small few r in
    let available : b.available ≡ capacity = omega (arith, total-idle held threads refl h) in
    let waiters : b.waiters ≡ 0 = omega (arith, total-idle waits threads refl h) in
    let foreground : b.foreground_waiters ≡ 0 =
      omega (arith, total-idle waits_foreground threads refl h) in
    let background : b.background_active ≡ 0 =
      omega (arith, total-idle in_background threads refl h) in
    same_budget b capacity available foreground waiters background
