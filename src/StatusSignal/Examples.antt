-- ===== src/StatusSignal/Examples.antt =====
-- Tests of core/src/status_signal.rs.
use apfsearch.Prelude.{◌≡◌, ◌≤◌, refl, true, false, [], ◌∷◌, All, arith}
use apfsearch.StatusSignal.{
  Observer, Stage, outside, registered, asleep, max_waiters, Reachable, start, turn, register,
  sleep, cancel,
}
use apfsearch.StatusSignal.Heard.{IsHeard}
use apfsearch.StatusSignal.Counted.{counted, admitted, sum}
use apfsearch.StatusSignal.Safe.{reachable_safe}

abbrev at : Stage → Observer
at stage = record { after = 5; cancelled = false; pending = false; stage = stage }

abbrev stopped : Observer
stopped = record { after = 5; cancelled = true; pending = true; stage = asleep }

-- One observer falls asleep, and is cancelled then.
slept : Reachable 5 1 (stopped ∷ [])
slept =
    turn 5 1 1 (at asleep) stopped [] []
      (turn 5 1 1 (at registered) (at asleep) [] []
        (turn 5 0 1 (at outside) (at registered) [] []
          (start 5 (at outside ∷ []) (omega arith) (refl, tt))
          (register 5 0 (at outside) refl (omega arith)))
        (sleep 5 1 (at registered) refl refl))
      (cancel 5 1 (at asleep))

reachable_safe_example :
    All (IsHeard 5) (stopped ∷ [])
    × ((1 ≡ sum counted (stopped ∷ [])) × (sum admitted (stopped ∷ []) ≤ max_waiters))
reachable_safe_example = reachable_safe 5 1 (stopped ∷ []) (omega arith) slept
