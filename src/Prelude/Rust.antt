-- ===== src/Prelude/Rust.antt =====
-- What the core uses of Rust's standard library: integer limits, slices, and the `?` of `Option`.
use Prim.Native.Nat.{ℕ, suc, ◌-◌, ◌+◌, Ordering}
use mathlib.Core.Bool.{Bool, true, false}
use mathlib.Core.Option.{Option, none, some}
use mathlib.Core.List.{List, [], ◌∷◌}
use apfsearch.Prelude.Lists.{take, drop}
use apfsearch.Prelude.Tests.{if◌then◌else◌, ltb}

abbrev pub u32_max : ℕ
u32_max = 4294967295

abbrev pub usize_max : ℕ
usize_max = 18446744073709551615

-- `checked_add(1)` on `u32`
abbrev pub checked_succ : ℕ → Option ℕ
checked_succ n = if ltb n u32_max then some (n + 1) else none

infixl 5 ◌>>=◌
abbrev pub ◌>>=◌ {ℓ κ} : {A : Type ℓ} {B : Type κ} → Option A → (A → Option B) → Option B
none >>= f = none
some a >>= f = f a

-- `a.is_gt()`, `a.is_lt()` of `Ordering`
abbrev pub is_gt : Ordering → Bool
is_gt Ordering.gt = true
is_gt _ = false

abbrev pub is_lt : Ordering → Bool
is_lt Ordering.lt = true
is_lt _ = false

module _ {ℓ} {A : Type ℓ} where
  -- `values[start..end]`
  abbrev pub slice : ℕ → ℕ → List A → List A
  slice start end xs = take (end - start) (drop start xs)

  -- `partition_point` on a slice where `p` holds of a prefix and of no later element.
  abbrev pub partition_point : (A → Bool) → List A → ℕ
  partition_point p [] = 0
  partition_point p (x ∷ xs) = if p x then suc (partition_point p xs) else 0

  abbrev pub holds_at : (A → Bool) → Option A → Bool
  holds_at p none = false
  holds_at p (some x) = p x
