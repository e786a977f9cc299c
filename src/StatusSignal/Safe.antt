-- ===== src/StatusSignal/Safe.antt =====
-- What holds of the observers in every interleaving.
use apfsearch.Prelude.{
  ℕ, ◌<◌, ◌≤◌, ◌≡◌, refl, sym, ◌∙◌, false, List, ◌∷◌, ◌++◌, All, length, length-append, arith,
}
use apfsearch.StatusSignal.{
  Observer, max_waiters, bumped, Reachable, start, turn, change, wake_cancelled,
}
use apfsearch.StatusSignal.Heard.{
  IsHeard, All-at, All-put, turn-Heard, outside-Heard, map-wake-Heard,
}
use apfsearch.StatusSignal.Counted.{
  counted, admitted, sum, sum-outside, length-wake, turn-Counted, wake-Counted, settled-Counted,
}

-- At every time: each observer that sleeps in `wait` waits for the revision that the status has, so
-- that no change is lost on it; it is not cancelled, or the wake of its cancellation is still to
-- come; the count is that of the observers in a call; and at most 32 of them were let in. There are
-- fewer than 2^64 observers.
pub reachable_safe :
    (r w : ℕ) (observers : List Observer)
    → length observers < 18446744073709551616
    → Reachable r w observers
    → All (IsHeard r) observers
      × ((w ≡ sum counted observers) × (sum admitted observers ≤ max_waiters))
reachable_safe _ _ _ few (start r observers small h) = (
  outside-Heard r observers h,
  (
    sym (sum-outside counted observers refl h),
    omega (arith, sum-outside admitted observers refl h),
  ),
)
reachable_safe _ _ _ few (turn r w w' o o' before behind reached step) =
    let same : length (before ++ (o' ∷ behind)) ≡ length (before ++ (o ∷ behind)) =
      length-append before (o' ∷ behind) ∙ sym (length-append before (o ∷ behind)) in
    let (h, k) = reachable_safe r w (before ++ (o ∷ behind)) (omega (arith, same)) reached in
    (
      All-put (IsHeard r) before behind o o' h
          (turn-Heard r w w' o o' (All-at (IsHeard r) before behind o h) step),
      turn-Counted r w w' o o' before behind few k step,
    )
reachable_safe _ _ _ few (change r w observers reached) =
    let (h, k) = reachable_safe r w observers (omega (arith, length-wake observers)) reached in
    (map-wake-Heard (bumped r) observers, wake-Counted w observers k)
reachable_safe _ _ _ few (wake_cancelled r w o before behind reached due) =
    let p = record o { pending = false } in
    let same : length (before ++ (p ∷ behind)) ≡ length (before ++ (o ∷ behind)) =
      length-append before (p ∷ behind) ∙ sym (length-append before (o ∷ behind)) in
    let (h, k) =
      reachable_safe r w (before ++ (o ∷ behind))
        (omega (arith, same, length-wake (before ++ (p ∷ behind)))) reached in
    (
      map-wake-Heard r (before ++ (p ∷ behind)),
      wake-Counted w (before ++ (p ∷ behind)) (settled-Counted w o before behind k),
    )
