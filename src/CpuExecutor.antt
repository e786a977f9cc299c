-- ===== src/CpuExecutor.antt =====
-- core/src/cpu_executor.rs: the budget of workers that requests share. Each access to an atomic
-- counter is a step of one thread, in any interleaving. A thread that waits may try again at any
-- time: the condition variable and its mutex are not modelled, nor is the background guard that
-- reads the counters before an attempt.
pub mod Balanced
pub mod Budget
mod Examples
use apfsearch.Prelude.{
  ℕ, zero, suc, ◌+◌, ◌-◌, ◌/◌, ◌%◌, ◌^◌, ◌≡◌, Bool, true, false, Option, none, some, List, [], ◌∷◌,
  ◌++◌, min, max, ltb, leb, ◌==◌, if◌then◌else◌, replicate,
}

-- `available.div_ceil(2).clamp(1, MAX_CPU_THREADS)`
pub thread_count : ℕ → ℕ
thread_count available = max 1 (min 8 ((available + 1) / 2))

pub record WorkerBudget : Type 0 where
  pub available : ℕ
  pub foreground_waiters : ℕ
  pub waiters : ℕ
  pub background_active : ℕ

pub new : ℕ → WorkerBudget
new capacity = record {
  available = capacity;
  foreground_waiters = 0;
  waiters = 0;
  background_active = 0;
}

-- `fetch_add` and `fetch_sub(1)` on a `usize`
abbrev pub wrapping_add : ℕ → ℕ → ℕ
wrapping_add a b = (a + b) % 18446744073709551616

abbrev pub decrement : ℕ → ℕ
decrement a = if a == 0 then 18446744073709551615 else a - 1

-- What is left, if the request is granted.
pub try_acquire_exact : ℕ → ℕ → Option ℕ
try_acquire_exact count available =
    if count == 0 then none else if ltb available count then none else some (available - count)

-- The number of workers that are granted.
pub try_acquire : ℕ → ℕ → Option ℕ
try_acquire maximum available =
    if min maximum available == 0 then none else some (min maximum available)

-- Where a thread is. A foreground request that found no worker is `saturated`; it registers with
-- two counters, waits, and leaves by a permit or by cancellation. A permit of `count` workers is
-- background or not; a background permit is dropped in two accesses.
pub data Phase : Type 0 where
  idle saturated registering foreground_waiting : Phase
  cancelling_last admitted admitted_last : Phase
  background_waiting background_acquired background_counted : Phase
  holding : ℕ → Bool → Phase
  dropping : ℕ → Phase

-- One access of a thread: of `try_acquire`, `try_acquire_exact`, `enter`, `enter_background` and
-- `drop`.
pub data Access : WorkerBudget → Phase → WorkerBudget → Phase → Type 0 where
  acquire_exact :
      (b : WorkerBudget) (count rest : ℕ)
      → try_acquire_exact count b.available ≡ some rest
      → Access b idle (record b { available = rest }) (holding count false)
  acquire :
      (b : WorkerBudget) (maximum count : ℕ)
      → try_acquire maximum b.available ≡ some count
      → Access b idle (record b { available = b.available - count }) (holding count false)
  find_saturated :
      (b : WorkerBudget) → try_acquire_exact 1 b.available ≡ none → Access b idle b saturated
  register :
      (b : WorkerBudget)
      → Access b saturated (record b { waiters = wrapping_add b.waiters 1 }) registering
  register_foreground :
      (b : WorkerBudget)
      → Access b registering
          (record b { foreground_waiters = wrapping_add b.foreground_waiters 1 })
          foreground_waiting
  cancel :
      (b : WorkerBudget)
      → Access b foreground_waiting
          (record b { foreground_waiters = decrement b.foreground_waiters })
          cancelling_last
  cancel_last :
      (b : WorkerBudget)
      → Access b cancelling_last (record b { waiters = decrement b.waiters }) idle
  admit :
      (b : WorkerBudget) (rest : ℕ)
      → try_acquire_exact 1 b.available ≡ some rest
      → Access b foreground_waiting (record b { available = rest }) admitted
  leave :
      (b : WorkerBudget)
      → Access b admitted
          (record b { foreground_waiters = decrement b.foreground_waiters })
          admitted_last
  leave_last :
      (b : WorkerBudget)
      → Access b admitted_last (record b { waiters = decrement b.waiters }) (holding 1 false)
  register_background :
      (b : WorkerBudget)
      → Access b idle (record b { waiters = wrapping_add b.waiters 1 }) background_waiting
  admit_background :
      (b : WorkerBudget) (rest : ℕ)
      → try_acquire_exact 1 b.available ≡ some rest
      → Access b background_waiting (record b { available = rest }) background_acquired
  count_background :
      (b : WorkerBudget)
      → Access b background_acquired
          (record b { background_active = wrapping_add b.background_active 1 })
          background_counted
  leave_background :
      (b : WorkerBudget)
      → Access b background_counted (record b { waiters = decrement b.waiters }) (holding 1 true)
  drop_background :
      (b : WorkerBudget) (count : ℕ)
      → Access b
          (holding count true)
          (record b { background_active = decrement b.background_active })
          (dropping count)
  drop :
      (b : WorkerBudget) (count : ℕ)
      → Access b
          (holding count false)
          (record b { available = wrapping_add b.available count })
          idle
  drop_last :
      (b : WorkerBudget) (count : ℕ)
      → Access b (dropping count) (record b { available = wrapping_add b.available count }) idle

-- Any thread makes the next access.
pub data Reachable (capacity threads : ℕ) : WorkerBudget → List Phase → Type 0 where
  start : Reachable capacity threads (new capacity) (replicate threads idle)
  next :
      (b b' : WorkerBudget) (p p' : Phase) (before behind : List Phase)
      → Reachable capacity threads b (before ++ (p ∷ behind))
      → Access b p b' p'
      → Reachable capacity threads b' (before ++ (p' ∷ behind))
