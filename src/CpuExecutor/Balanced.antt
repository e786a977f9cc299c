-- ===== src/CpuExecutor/Balanced.antt =====
-- What a thread's phase adds to each counter, and that an access keeps the balance.
use apfsearch.Prelude.{ℕ, ◌+◌, ◌≤◌, ◌<◌, ◌≡◌, true, some, arith}
use apfsearch.CpuExecutor.{
  WorkerBudget, Phase, registering, foreground_waiting, cancelling_last, admitted, admitted_last,
  background_waiting, background_acquired, background_counted, holding, dropping, Access,
  acquire_exact, acquire, find_saturated, register, register_foreground, cancel, cancel_last, admit,
  leave, leave_last, register_background, admit_background, count_background, leave_background,
  drop_background, drop, drop_last, try_acquire_exact, try_acquire,
}

-- Workers
abbrev pub held : Phase → ℕ
held admitted = 1
held admitted_last = 1
held background_acquired = 1
held background_counted = 1
held (holding count background) = count
held (dropping count) = count
held _ = 0

abbrev pub waits : Phase → ℕ
waits registering = 1
waits foreground_waiting = 1
waits cancelling_last = 1
waits admitted = 1
waits admitted_last = 1
waits background_waiting = 1
waits background_acquired = 1
waits background_counted = 1
waits _ = 0

abbrev pub waits_foreground : Phase → ℕ
waits_foreground foreground_waiting = 1
waits_foreground admitted = 1
waits_foreground _ = 0

abbrev pub in_background : Phase → ℕ
in_background background_counted = 1
in_background (holding count true) = 1
in_background _ = 0

-- The counters, where the other threads add `h`, `w`, `f` and `g`.
abbrev pub IsBalanced : ℕ → WorkerBudget → Phase → ℕ → ℕ → ℕ → ℕ → Type 0
IsBalanced capacity b p h w f g =
    (b.available + (held p + h) ≡ capacity)
    × (b.waiters ≡ waits p + w)
    × (b.foreground_waiters ≡ waits_foreground p + f)
    × (b.background_active ≡ in_background p + g)

try_acquire_exact_lem :
    (count available rest : ℕ)
    → try_acquire_exact count available ≡ some rest
    → available ≡ rest + count
unfolding try_acquire_exact
try_acquire_exact_lem count available rest e = ground arith

try_acquire_lem :
    (maximum available count : ℕ) → try_acquire maximum available ≡ some count → count ≤ available
unfolding try_acquire
try_acquire_lem maximum available count e = ground arith

module _ (capacity h w f g : ℕ) (small : capacity < 18446744073709551616)
    (few : w + 1 < 18446744073709551616) (fewer : f + 1 < 18446744073709551616)
    (fewest : g + 1 < 18446744073709551616) where
  pub access-IsBalanced :
      (b b' : WorkerBudget) (p p' : Phase)
      → Access b p b' p'
      → IsBalanced capacity b p h w f g
      → IsBalanced capacity b' p' h w f g
  access-IsBalanced _ _ _ _ (acquire_exact b count rest e) (k, l, m, n) =
      ground (arith, try_acquire_exact_lem count b.available rest e)
  access-IsBalanced _ _ _ _ (acquire b maximum count e) (k, l, m, n) =
      ground (arith, try_acquire_lem maximum b.available count e)
  access-IsBalanced _ _ _ _ (find_saturated b e) (k, l, m, n) = ground arith
  access-IsBalanced _ _ _ _ (register b) (k, l, m, n) = ground arith
  access-IsBalanced _ _ _ _ (register_foreground b) (k, l, m, n) = ground arith
  access-IsBalanced _ _ _ _ (cancel b) (k, l, m, n) = ground arith
  access-IsBalanced _ _ _ _ (cancel_last b) (k, l, m, n) = ground arith
  access-IsBalanced _ _ _ _ (admit b rest e) (k, l, m, n) =
      ground (arith, try_acquire_exact_lem 1 b.available rest e)
  access-IsBalanced _ _ _ _ (leave b) (k, l, m, n) = ground arith
  access-IsBalanced _ _ _ _ (leave_last b) (k, l, m, n) = ground arith
  access-IsBalanced _ _ _ _ (register_background b) (k, l, m, n) = ground arith
  access-IsBalanced _ _ _ _ (admit_background b rest e) (k, l, m, n) =
      ground (arith, try_acquire_exact_lem 1 b.available rest e)
  access-IsBalanced _ _ _ _ (count_background b) (k, l, m, n) = ground arith
  access-IsBalanced _ _ _ _ (leave_background b) (k, l, m, n) = ground arith
  access-IsBalanced _ _ _ _ (drop_background b count) (k, l, m, n) = ground arith
  access-IsBalanced _ _ _ _ (drop b count) (k, l, m, n) = ground arith
  access-IsBalanced _ _ _ _ (drop_last b count) (k, l, m, n) = ground arith
