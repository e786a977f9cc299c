-- ===== src/CpuExecutor/Examples.antt =====
-- Tests of core/src/cpu_executor.rs: one worker and two threads.
use apfsearch.Prelude.{◌≡◌, refl, false, [], ◌∷◌, arith}
use apfsearch.CpuExecutor.{
  WorkerBudget, new, thread_count, idle, foreground_waiting, holding, Reachable, start, next,
  try_acquire_exact, acquire_exact, find_saturated, register, register_foreground, cancel,
  cancel_last, drop,
}
use apfsearch.CpuExecutor.Budget.{IsAccounted, reachable-IsAccounted, idle_restores}

thread_count_eight : thread_count 15 ≡ 8
unfolding thread_count
thread_count_eight = refl

-- The second thread waits for the permit of the first.
waited :
    Reachable 1 2
      (record { available = 0; foreground_waiters = 1; waiters = 1; background_active = 0 })
      (holding 1 false ∷ foreground_waiting ∷ [])
unfolding new try_acquire_exact
waited =
    next _ _ _ _ (holding 1 false ∷ []) []
      (next _ _ _ _ (holding 1 false ∷ []) []
        (next _ _ _ _ (holding 1 false ∷ []) []
          (next _ _ _ _ [] (idle ∷ []) start (acquire_exact (new 1) 1 0 refl))
          (find_saturated _ refl))
        (register _))
      (register_foreground _)

-- It is cancelled, and the first drops its permit.
returned :
    Reachable 1 2
      (record { available = 1; foreground_waiters = 0; waiters = 0; background_active = 0 })
      (idle ∷ idle ∷ [])
unfolding new try_acquire_exact
returned =
    next _ _ _ _ [] (idle ∷ [])
      (next _ _ _ _ (holding 1 false ∷ []) []
        (next _ _ _ _ (holding 1 false ∷ []) [] waited (cancel _)) (cancel_last _))
      (drop _ 1)

reachable-IsAccounted_example :
    IsAccounted 1 2
      (record { available = 0; foreground_waiters = 1; waiters = 1; background_active = 0 })
      (holding 1 false ∷ foreground_waiting ∷ [])
reachable-IsAccounted_example =
    reachable-IsAccounted 1 2
      (record { available = 0; foreground_waiters = 1; waiters = 1; background_active = 0 })
      (holding 1 false ∷ foreground_waiting ∷ []) (omega arith) (omega arith) waited

idle_restores_example :
    Path WorkerBudget
      (record { available = 1; foreground_waiters = 0; waiters = 0; background_active = 0 })
      (new 1)
idle_restores_example =
    idle_restores 1 2
      (record { available = 1; foreground_waiters = 0; waiters = 0; background_active = 0 })
      (idle ∷ idle ∷ []) (omega arith) (omega arith) returned (refl, (refl, tt))
