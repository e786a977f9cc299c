-- ===== src/StatusSignal/Heard.antt =====
-- No change and no cancellation is lost on an observer that sleeps.
use apfsearch.Prelude.{
  ℕ, ◌≡◌, ◌⊎◌, inl, inr, refl, true, false, List, [], ◌∷◌, ◌++◌, map, All, arith,
}
use apfsearch.StatusSignal.{
  Stage, outside, refused, registered, asleep, awake, leaving, Observer, woken, wake, Turn, call,
  register, refuse, withdraw, sleep, sleep_again, pass, pass_awake, time_out, wake_early, leave,
  cancel, IsOutside,
}

-- A thread that sleeps waits for the present revision, and is not cancelled, or a wake is to come.
abbrev pub IsAwaiting : ℕ → Observer → Stage → Type 0
IsAwaiting r o outside = Unit {0}
IsAwaiting r o refused = Unit {0}
IsAwaiting r o registered = Unit {0}
IsAwaiting r o asleep = (o.after ≡ r) × ((o.cancelled ≡ false) ⊎ (o.pending ≡ true))
IsAwaiting r o awake = Unit {0}
IsAwaiting r o leaving = Unit {0}

abbrev pub IsHeard : ℕ → Observer → Type 0
IsHeard r o = IsAwaiting r o o.stage

heard_woken : (r : ℕ) (o p : Observer) (s : Stage) → IsAwaiting r p (woken s)
heard_woken r o p outside = tt
heard_woken r o p refused = tt
heard_woken r o p registered = tt
heard_woken r o p asleep = tt
heard_woken r o p awake = tt
heard_woken r o p leaving = tt

pub map-wake-Heard : (r : ℕ) (observers : List Observer) → All (IsHeard r) (map wake observers)
map-wake-Heard r [] = tt
map-wake-Heard r (o ∷ observers) = (heard_woken r o (wake o) o.stage, map-wake-Heard r observers)

module _ (P : Observer → Type 0) where
  pub All-at : (before behind : List Observer) (o : Observer) → All P (before ++ (o ∷ behind)) → P o
  All-at [] behind o h = h.0
  All-at (p ∷ before) behind o h = All-at before behind o h.1

  pub All-put :
      (before behind : List Observer) (o o' : Observer)
      → All P (before ++ (o ∷ behind))
      → P o'
      → All P (before ++ (o' ∷ behind))
  All-put [] behind o o' h k = (k, h.1)
  All-put (p ∷ before) behind o o' h k = (h.0, All-put before behind o o' h.1 k)

heard_cancelled :
    (r : ℕ) (o : Observer) (s : Stage)
    → IsAwaiting r o s
    → IsAwaiting r (record o { cancelled = true; pending = true }) s
heard_cancelled r o outside h = tt
heard_cancelled r o refused h = tt
heard_cancelled r o registered h = tt
heard_cancelled r o asleep h = (h.0, inr refl)
heard_cancelled r o awake h = tt
heard_cancelled r o leaving h = tt

pub turn-Heard : (r w w' : ℕ) (o o' : Observer) → IsHeard r o → Turn r w o w' o' → IsHeard r o'
turn-Heard _ _ _ _ _ h (call r w after flag o e) = rw e tt
turn-Heard _ _ _ _ _ h (register r w o e less) = tt
turn-Heard _ _ _ _ _ h (refuse r w o e more) = tt
turn-Heard _ _ _ _ _ h (withdraw r w o e) = tt
turn-Heard _ _ _ _ _ h (sleep r w o e test) = (ground arith, inl (ground arith))
turn-Heard _ _ _ _ _ h (sleep_again r w o e test) = (ground arith, inl (ground arith))
turn-Heard _ _ _ _ _ h (pass r w o e test) = tt
turn-Heard _ _ _ _ _ h (pass_awake r w o e test) = tt
turn-Heard _ _ _ _ _ h (time_out r w o e) = tt
turn-Heard _ _ _ _ _ h (wake_early r w o e) = tt
turn-Heard _ _ _ _ _ h (leave r w o e) = tt
turn-Heard _ _ _ _ _ h (cancel r w o) = heard_cancelled r o o.stage h

pub outside-Heard :
    (r : ℕ) (observers : List Observer) → All IsOutside observers → All (IsHeard r) observers
outside-Heard r [] h = tt
outside-Heard r (o ∷ observers) (k, h) = (rw k tt, outside-Heard r observers h)
