-- ===== src/StatusSignal/Counted.antt =====
-- The count of waiters, and how many are let in.
use apfsearch.Prelude.{
  ℕ, suc, ◌+◌, ◌<◌, ◌≤◌, ◌≡◌, refl, ap, ◌∙◌, false, List, [], ◌∷◌, ◌++◌, map, All, length,
  length-append, arith,
}
use native.Mathlib.Nat.{mod-eq_of_lt}
use apfsearch.StatusSignal.{
  Stage, outside, refused, registered, asleep, awake, leaving, Observer, max_waiters, taken, woken,
  wake, Turn, call, register, refuse, withdraw, sleep, sleep_again, pass, pass_awake, time_out,
  wake_early, leave, cancel, IsOutside,
}

-- The part of an observer in the count, and whether it was let in.
abbrev pub counted : Stage → ℕ
counted outside = 0
counted refused = 1
counted registered = 1
counted asleep = 1
counted awake = 1
counted leaving = 1

abbrev pub admitted : Stage → ℕ
admitted outside = 0
admitted refused = 0
admitted registered = 1
admitted asleep = 1
admitted awake = 1
admitted leaving = 1

abbrev pub sum : (Stage → ℕ) → List Observer → ℕ
sum f [] = 0
sum f (o ∷ observers) = f o.stage + sum f observers

module _ (f : Stage → ℕ) where
  sum-append :
      (before behind : List Observer) (o : Observer)
      → sum f (before ++ (o ∷ behind)) ≡ f o.stage + (sum f before + sum f behind)
  sum-append [] behind o = omega arith
  sum-append (p ∷ before) behind o = omega (arith, sum-append before behind o)

  sum_le :
      ((s : Stage) → f s ≤ 1) → (observers : List Observer) → sum f observers ≤ length observers
  sum_le h [] = omega arith
  sum_le h (o ∷ observers) = omega (arith, h o.stage, sum_le h observers)

  sum-wake :
      ((s : Stage) → f (woken s) ≡ f s)
      → (observers : List Observer) → sum f (map wake observers) ≡ sum f observers
  sum-wake h [] = refl
  sum-wake h (o ∷ observers) = omega (arith, h o.stage, sum-wake h observers)

counted-woken : (s : Stage) → counted (woken s) ≡ counted s
counted-woken s = ground arith

admitted-woken : (s : Stage) → admitted (woken s) ≡ admitted s
admitted-woken s = ground arith

-- The count of one observer, among others that sum up to `c` and `a`.
abbrev IsLimited : ℕ → Stage → ℕ → ℕ → Type 0
IsLimited w s c a = (w ≡ counted s + c) × (admitted s + a ≤ max_waiters)

kept :
    (c a w : ℕ) (s first second : Stage)
    → counted first ≡ counted second
    → admitted first ≡ admitted second
    → s ≡ first
    → IsLimited w s c a
    → IsLimited w second c a
kept c a w s first second same same' e h =
    let one : counted s ≡ counted second = ap counted e ∙ same in
    let two : admitted s ≡ admitted second = ap admitted e ∙ same' in (omega arith, omega arith)

-- A count that is not 0 does not wrap.
taken_lem : (w n : ℕ) → w ≡ 1 + n → n < 18446744073709551615 → taken w ≡ 0 + n
taken_lem w n h small = omega (arith, h)

turn-Limited :
    (r w w' c a : ℕ) (o o' : Observer)
    → a ≤ c
    → c < 18446744073709551615
    → IsLimited w o.stage c a
    → Turn r w o w' o'
    → IsLimited w' o'.stage c a
turn-Limited _ _ _ c a _ _ le small h (call r w after flag o e) = h
turn-Limited _ _ _ c a _ _ le small h (register r w o e less) =
    let none : counted o.stage ≡ 0 = ap counted e in
    let room : w + 1 < 18446744073709551616 = omega arith in
    (mod-eq_of_lt room ∙ omega arith, omega arith)
turn-Limited _ _ _ c a _ _ le small h (refuse r w o e more) =
    let none : counted o.stage ≡ 0 = ap counted e in
    let out : admitted o.stage ≡ 0 = ap admitted e in
    let room : w + 1 < 18446744073709551616 = omega arith in
    (mod-eq_of_lt room ∙ omega arith, omega arith)
turn-Limited _ _ _ c a _ _ le small h (withdraw r w o e) =
    let one : counted o.stage ≡ 1 = ap counted e in
    let out : admitted o.stage ≡ 0 = ap admitted e in
    let some_left : w ≡ 1 + c = omega arith in (taken_lem w c some_left small, omega arith)
turn-Limited _ _ _ c a _ _ le small h (sleep r w o e test) =
    kept c a w o.stage registered asleep refl refl e h
turn-Limited _ _ _ c a _ _ le small h (sleep_again r w o e test) =
    kept c a w o.stage awake asleep refl refl e h
turn-Limited _ _ _ c a _ _ le small h (pass r w o e test) =
    kept c a w o.stage registered leaving refl refl e h
turn-Limited _ _ _ c a _ _ le small h (pass_awake r w o e test) =
    kept c a w o.stage awake leaving refl refl e h
turn-Limited _ _ _ c a _ _ le small h (time_out r w o e) =
    kept c a w o.stage asleep leaving refl refl e h
turn-Limited _ _ _ c a _ _ le small h (wake_early r w o e) =
    kept c a w o.stage asleep awake refl refl e h
turn-Limited _ _ _ c a _ _ le small h (leave r w o e) =
    let one : counted o.stage ≡ 1 = ap counted e in
    let in_it : admitted o.stage ≡ 1 = ap admitted e in
    let some_left : w ≡ 1 + c = omega arith in (taken_lem w c some_left small, omega arith)
turn-Limited _ _ _ c a _ _ le small h (cancel r w o) = h

pub sum-outside :
    (f : Stage → ℕ) (observers : List Observer)
    → f outside ≡ 0
    → All IsOutside observers
    → sum f observers ≡ 0
sum-outside f [] e h = refl
sum-outside f (o ∷ observers) e (k, h) =
    let none : f o.stage ≡ 0 = ap f k ∙ e in omega (arith, none, sum-outside f observers e h)

pub length-wake : (observers : List Observer) → length (map wake observers) ≡ length observers
length-wake [] = refl
length-wake (o ∷ observers) = ap suc (length-wake observers)

counted_le : (s : Stage) → counted s ≤ 1
counted_le s = ground arith

admitted-counted : (observers : List Observer) → sum admitted observers ≤ sum counted observers
admitted-counted [] = omega arith
admitted-counted (o ∷ observers) = omega (arith, admitted_first o.stage, admitted-counted observers)
  where
    admitted_first : (s : Stage) → admitted s ≤ counted s
    admitted_first s = ground arith

-- What the counts are.
abbrev IsCounted : ℕ → List Observer → Type 0
IsCounted w observers = (w ≡ sum counted observers) × (sum admitted observers ≤ max_waiters)

pub turn-Counted :
    (r w w' : ℕ) (o o' : Observer) (before behind : List Observer)
    → length (before ++ (o' ∷ behind)) < 18446744073709551616
    → IsCounted w (before ++ (o ∷ behind))
    → Turn r w o w' o'
    → IsCounted w' (before ++ (o' ∷ behind))
turn-Counted r w w' o o' before behind few (e, k) step =
    let c = sum counted before + sum counted behind in
    let a = sum admitted before + sum admitted behind in
    let le : a ≤ c = omega (arith, admitted-counted before, admitted-counted behind) in
    let small : c < 18446744073709551615 = omega (
      arith,
      length-append before (o' ∷ behind),
      sum_le counted counted_le before,
      sum_le counted counted_le behind,
    ) in
    let (e', k') =
      turn-Limited r w w' c a o o' le small
        (
          omega (arith, sum-append counted before behind o),
          omega (arith, sum-append admitted before behind o),
        )
        step in
    (
      omega (arith, sum-append counted before behind o'),
      omega (arith, sum-append admitted before behind o'),
    )

pub wake-Counted :
    (w : ℕ) (observers : List Observer) → IsCounted w observers → IsCounted w (map wake observers)
wake-Counted w observers (e, k) = (
  omega (arith, sum-wake counted counted-woken observers),
  omega (arith, sum-wake admitted admitted-woken observers),
)

pub settled-Counted :
    (w : ℕ) (o : Observer) (before behind : List Observer)
    → IsCounted w (before ++ (o ∷ behind))
    → IsCounted w (before ++ (record o { pending = false } ∷ behind))
settled-Counted w o before behind (e, k) =
    let p = record o { pending = false } in
    (
      omega (arith, sum-append counted before behind o, sum-append counted before behind p),
      omega (arith, sum-append admitted before behind o, sum-append admitted before behind p),
    )
