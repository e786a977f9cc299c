-- ===== src/StatusSignal.antt =====
-- core/src/status_signal.rs: the status, its revision, and the observers that wait for a change. What
-- a thread does under the lock is one step, and a sleep on the condition variable gives the lock up
-- in the same step as the test before it. Any thread makes the next step.
pub mod Heard
pub mod Counted
pub mod Safe
mod Examples
use apfsearch.Prelude.{
  ℕ, ◌+◌, ◌-◌, ◌%◌, ◌<◌, ◌≤◌, ◌≡◌, Bool, true, false, not, ◌&&◌, List, [], ◌∷◌, ◌++◌, ◌==◌, map,
  All, usize_max,
}

-- Where an observer is in `wait`.
pub data Stage : Type 0 where
  -- Not in a call.
  outside : Stage
  -- Over the limit, before its `fetch_sub`.
  refused : Stage
  -- Counted, before its first test.
  registered : Stage
  -- In the condition variable, and woken in it.
  asleep : Stage
  awake : Stage
  -- Past the wait, before the drop of `Waiting`.
  leaving : Stage

-- `pending`: the flag was set, and `wake_cancelled` will be called for it.
pub record Observer : Type 0 where
  pub after : ℕ
  pub cancelled : Bool
  pub pending : Bool
  pub stage : Stage

abbrev pub max_waiters : ℕ
max_waiters = 32

-- `revision.wrapping_add(1)`
abbrev pub bumped : ℕ → ℕ
bumped revision = (revision + 1) % 18446744073709551616

-- `fetch_add(1)` on `usize`
abbrev pub added : ℕ → ℕ
added waiters = (waiters + 1) % 18446744073709551616

-- `fetch_sub(1)` on `usize`
abbrev pub taken : ℕ → ℕ
taken waiters = (waiters + usize_max) % 18446744073709551616

-- `state.revision == after && !cancelled.load(…)`
abbrev pub must_wait : ℕ → Observer → Bool
must_wait revision o = (revision == o.after) && not o.cancelled

-- `notify_all`, for one observer
abbrev pub woken : Stage → Stage
woken outside = outside
woken refused = refused
woken registered = registered
woken asleep = awake
woken awake = awake
woken leaving = leaving

abbrev pub wake : Observer → Observer
wake o = record o { stage = woken o.stage }

-- The steps of one observer, with the count of waiters before and after.
pub data Turn : ℕ → ℕ → Observer → ℕ → Observer → Type 0 where
  -- Another call of `wait`, with another revision and another flag.
  call :
      (r w after : ℕ) (flag : Bool) (o : Observer)
      → o.stage ≡ outside
      → Turn r w o w (record o { after = after; cancelled = flag })
  register :
      (r w : ℕ) (o : Observer)
      → o.stage ≡ outside
      → w < max_waiters
      → Turn r w o (added w) (record o { stage = registered })
  refuse :
      (r w : ℕ) (o : Observer)
      → o.stage ≡ outside
      → max_waiters ≤ w
      → Turn r w o (added w) (record o { stage = refused })
  withdraw :
      (r w : ℕ) (o : Observer)
      → o.stage ≡ refused
      → Turn r w o (taken w) (record o { stage = outside })
  sleep :
      (r w : ℕ) (o : Observer)
      → o.stage ≡ registered
      → must_wait r o ≡ true
      → Turn r w o w (record o { stage = asleep })
  sleep_again :
      (r w : ℕ) (o : Observer)
      → o.stage ≡ awake
      → must_wait r o ≡ true
      → Turn r w o w (record o { stage = asleep })
  pass :
      (r w : ℕ) (o : Observer)
      → o.stage ≡ registered
      → must_wait r o ≡ false
      → Turn r w o w (record o { stage = leaving })
  pass_awake :
      (r w : ℕ) (o : Observer)
      → o.stage ≡ awake
      → must_wait r o ≡ false
      → Turn r w o w (record o { stage = leaving })
  -- A timeout that is over before the sleep ends a sleep at once.
  time_out :
      (r w : ℕ) (o : Observer) → o.stage ≡ asleep → Turn r w o w (record o { stage = leaving })
  -- A condition variable may wake a thread without a reason.
  wake_early :
      (r w : ℕ) (o : Observer) → o.stage ≡ asleep → Turn r w o w (record o { stage = awake })
  leave :
      (r w : ℕ) (o : Observer)
      → o.stage ≡ leaving
      → Turn r w o (taken w) (record o { stage = outside })
  -- The flag is set without the lock; `wake_cancelled` follows.
  cancel : (r w : ℕ) (o : Observer) → Turn r w o w (record o { cancelled = true; pending = true })

abbrev pub IsOutside : Observer → Type 0
IsOutside o = o.stage ≡ outside

-- The revision, the count of waiters, and the observers. `change` is `notify`, and the drop of a
-- guard that was written through.
pub data Reachable : ℕ → ℕ → List Observer → Type 0 where
  start :
      (r : ℕ) (observers : List Observer)
      → r < 18446744073709551616
      → All IsOutside observers
      → Reachable r 0 observers
  turn :
      (r w w' : ℕ) (o o' : Observer) (before behind : List Observer)
      → Reachable r w (before ++ (o ∷ behind))
      → Turn r w o w' o'
      → Reachable r w' (before ++ (o' ∷ behind))
  change :
      (r w : ℕ) (observers : List Observer)
      → Reachable r w observers
      → Reachable (bumped r) w (map wake observers)
  wake_cancelled :
      (r w : ℕ) (o : Observer) (before behind : List Observer)
      → Reachable r w (before ++ (o ∷ behind))
      → o.pending ≡ true
      → Reachable r w (map wake (before ++ (record o { pending = false } ∷ behind)))
