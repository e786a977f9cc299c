-- ===== src/Query/Truth/Agree.antt =====
-- When a three-valued truth of core/src/query.rs agrees with an evaluation, and that the loops over
-- the children of a conjunction and a disjunction keep the agreement.
use apfsearch.Prelude.{◌≡◌, ◌≢◌, refl, Bool, true, false, not, Option, none, some}
use apfsearch.Result.{Error, Result, ok, err, ◌>>=◌}
use apfsearch.Query.Leaf.{is_true}
use apfsearch.Query.Truth.{turn, stop, next, negated}

-- What is decided is the result, where the evaluation has one.
abbrev pub Agree : Result (Option Bool) → Result Bool → Type 0
Agree (ok (some b)) (ok r) = r ≡ b
Agree (ok (some b)) (err e) = Unit {0}
Agree (ok none) r = Unit {0}
Agree (err e) r = Unit {0}

-- After doubt only the decisive value is reached.
abbrev pub Only : Bool → Result (Option Bool) → Type 0
Only decisive (ok (some b)) = b ≡ decisive
Only decisive (ok none) = Unit {0}
Only decisive (err e) = Unit {0}

pub Agree-eq :
    (m : Result (Option Bool)) (n : Result Bool) (b r : Bool)
    → Agree m n
    → m ≡ ok (some b)
    → n ≡ ok r
    → r ≡ b
Agree-eq (ok (some b')) (ok r') b r a h e = cc
Agree-eq (ok (some b')) (err x) b r a h e = cc
Agree-eq (ok none) n b r a h e = cc
Agree-eq (err x) n b r a h e = cc

pub Agree-not :
    (m : Result (Option Bool)) (n : Result Bool)
    → Agree m n
    → Agree (m >>= λ v. ok (negated v)) (n >>= λ v. ok (not v))
Agree-not (ok (some b)) (ok r) a = ap_not a
  where
    ap_not : {c d : Bool} → c ≡ d → not c ≡ not d
    ap_not h = cc
Agree-not (ok (some b)) (err e) a = tt
Agree-not (ok none) (ok r) a = tt
Agree-not (ok none) (err e) a = tt
Agree-not (err e) n a = tt

Agree-err : (m : Result (Option Bool)) (e : Error) → Agree m (err e)
Agree-err (ok (some b)) e = tt
Agree-err (ok none) e = tt
Agree-err (err f) e = tt

Agree-Only : (b : Bool) (m : Result (Option Bool)) → Only b m → Agree m (ok b)
Agree-Only b (ok (some c)) o = cc
Agree-Only b (ok none) o = tt
Agree-Only b (err f) o = tt

pub Agree-lifted : (m : Result Bool) → Agree (m >>= λ v. ok (some v)) m
Agree-lifted (ok r) = refl
Agree-lifted (err e) = tt

pub Agree-is_true : (v : Option Bool) → Agree (ok v) (ok (is_true v))
Agree-is_true none = tt
Agree-is_true (some true) = refl
Agree-is_true (some false) = refl

-- One turn of a loop: `rest` is what is left of the loop, by whether there is doubt.
module _ (doubt : Bool) (rest : Bool → Result (Option Bool)) where
  pub Only-turn :
      (decisive : Bool) (m : Result (Option Bool))
      → Only decisive (rest true)
      → Only decisive
          (m >>= λ v. elim (turn decisive true v) [ stop b ↦ ok (some b) | next d ↦ rest d ])
  Only-turn true (ok (some true)) o = refl
  Only-turn true (ok (some false)) o = o
  Only-turn false (ok (some true)) o = o
  Only-turn false (ok (some false)) o = refl
  Only-turn decisive (ok none) o = o
  Only-turn decisive (err e) o = tt

  pub Agree-every :
      (m : Result (Option Bool)) (n last : Result Bool)
      → Agree m n
      → ((d : Bool) → Agree (rest d) last)
      → Only false (rest true)
      → Agree
          (m >>= λ v. elim (turn false doubt v) [ stop b ↦ ok (some b) | next d ↦ rest d ])
          (n >>= λ v. elim v [ true ↦ last | false ↦ ok false ])
  Agree-every (ok (some true)) (ok true) last a all only = all doubt
  Agree-every (ok (some true)) (ok false) last a all only = cc
  Agree-every (ok (some true)) (err e) last a all only = Agree-err (rest doubt) e
  Agree-every (ok (some false)) (ok false) last a all only = refl
  Agree-every (ok (some false)) (ok true) last a all only = cc
  Agree-every (ok (some false)) (err e) last a all only = tt
  Agree-every (ok none) (ok true) last a all only = all true
  Agree-every (ok none) (ok false) last a all only = Agree-Only false (rest true) only
  Agree-every (ok none) (err e) last a all only = Agree-err (rest true) e
  Agree-every (err e) n last a all only = tt

  pub Agree-some :
      (m : Result (Option Bool)) (n last : Result Bool)
      → Agree m n
      → ((d : Bool) → Agree (rest d) last)
      → Only true (rest true)
      → Agree
          (m >>= λ v. elim (turn true doubt v) [ stop b ↦ ok (some b) | next d ↦ rest d ])
          (n >>= λ v. elim v [ true ↦ ok true | false ↦ last ])
  Agree-some (ok (some false)) (ok true) last a all only = cc
  Agree-some (ok (some false)) (ok false) last a all only = all doubt
  Agree-some (ok (some false)) (err e) last a all only = Agree-err (rest doubt) e
  Agree-some (ok (some true)) (ok true) last a all only = refl
  Agree-some (ok (some true)) (ok false) last a all only = cc
  Agree-some (ok (some true)) (err e) last a all only = tt
  Agree-some (ok none) (ok false) last a all only = all true
  Agree-some (ok none) (ok true) last a all only = Agree-Only true (rest true) only
  Agree-some (ok none) (err e) last a all only = Agree-err (rest true) e
  Agree-some (err e) n last a all only = tt

pub not_self : (b : Bool) → not b ≢ b
not_self true h = cc
not_self false h = cc
