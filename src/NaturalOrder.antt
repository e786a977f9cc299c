-- ===== src/NaturalOrder.antt =====
-- The natural order of texts, in which runs of digits are compared as numbers: core/src/query.rs
-- (`natural_cmp_folded`, `natural_cmp`) and core/src/text_view.rs (`TextView::natural_cmp`). An
-- index into a slice is the rest of the slice behind it.
pub mod Value
pub mod Tokens
pub mod Reference
pub mod View
mod Examples
use apfsearch.Prelude.{
  ℕ, zero, suc, ◌≡◌, Bool, true, false, not, ◌&&◌, ◌||◌, List, [], ◌∷◌, ◌++◌, leb, ◌==◌,
  if◌then◌else◌, length, drop, Option, none, some, Ordering, compare,
}
use apfsearch.Compare.{then_with, list_cmp}
use apfsearch.Text.{Text, Bytes, TextView, as_bytes, text_eq}
use apfsearch.External.{External}
use apfsearch.Query.Fold.{fold}

-- `u8::is_ascii_digit`
abbrev pub is_digit : ℕ → Bool
is_digit c = leb b'0' c && leb c b'9'

pub skip_zeros : Bytes → Bytes
skip_zeros [] = []
skip_zeros (c ∷ bytes) = if c == b'0' then skip_zeros bytes else c ∷ bytes

-- The digits in front, and what stands behind them.
pub digit_run : Bytes → Bytes
digit_run [] = []
digit_run (c ∷ bytes) = if is_digit c then c ∷ digit_run bytes else []

pub behind_run : Bytes → Bytes
behind_run [] = []
behind_run (c ∷ bytes) = if is_digit c then behind_run bytes else c ∷ bytes

-- Two runs without zeros in front: the longer is greater, and runs of one length go digit by digit.
abbrev pub run_cmp : Bytes → Bytes → Ordering
run_cmp a b = then_with (compare (length a) (length b)) (list_cmp compare a b)

-- The turns of the loop. Each takes a byte of the first text at least, so that its length and one
-- more turn are fuel enough.
pub natural_loop : ℕ → Bytes → Bytes → Ordering
unfolding skip_zeros digit_run behind_run
natural_loop zero a b = Ordering.eq
natural_loop (suc fuel) [] b = compare 0 (length b)
natural_loop (suc fuel) (c ∷ a) [] = compare (length (c ∷ a)) 0
natural_loop (suc fuel) (c ∷ a) (d ∷ b) = elim (is_digit c && is_digit d) [
  | true ↦
      let left = skip_zeros (c ∷ a) in
      let right = skip_zeros (d ∷ b) in
      then_with (run_cmp (digit_run left) (digit_run right))
        (natural_loop fuel (behind_run left) (behind_run right))
  | false ↦ then_with (compare c d) (natural_loop fuel a b)
]

unfoldable pub natural_cmp_folded : Bytes → Bytes → Ordering
unfolding natural_loop
natural_cmp_folded a b = natural_loop (suc (length a)) a b

pub natural_cmp : External → Text → Text → Ordering
natural_cmp x a b = natural_cmp_folded (as_bytes (fold x a)) (as_bytes (fold x b))

-- `bytes.last().is_none_or(|byte| !byte.is_ascii_digit())`
abbrev pub ends_without_digit : Bytes → Bool
ends_without_digit [] = true
ends_without_digit (c ∷ []) = not (is_digit c)
ends_without_digit (c ∷ d ∷ bytes) = ends_without_digit (d ∷ bytes)

-- `self.bytes()`
abbrev pub view_bytes : TextView → Bytes
view_bytes view = as_bytes view.prefix ++ as_bytes view.suffix

-- `Iterator::peek` on the bytes that are left
abbrev peek : Bytes → Option ℕ
peek [] = none
peek (c ∷ bytes) = some c

-- `a.cmp(&b)` of two optional bytes
abbrev option_cmp : Option ℕ → Option ℕ → Ordering
option_cmp none none = Ordering.eq
option_cmp none (some b) = Ordering.lt
option_cmp (some a) none = Ordering.gt
option_cmp (some a) (some b) = compare a b

-- The loop over the two iterators, each the bytes that are left. A turn takes a byte of the first
-- at least, so that their number and one more turn are fuel enough.
pub view_loop : ℕ → Bytes → Bytes → Ordering
unfolding skip_zeros digit_run
view_loop zero left right = Ordering.eq
view_loop (suc fuel) [] right = option_cmp none (peek right)
view_loop (suc fuel) (a ∷ left) [] = option_cmp (peek (a ∷ left)) none
view_loop (suc fuel) (a ∷ left) (b ∷ right) = elim (is_digit a && is_digit b) [
  | true ↦
      let left' = skip_zeros (a ∷ left) in
      let right' = skip_zeros (b ∷ right) in
      let first = digit_run left' in
      let second = digit_run right' in
      then_with (then_with (compare (length first) (length second)) (list_cmp compare first second))
        (view_loop fuel (drop (length first) left') (drop (length second) right'))
  | false ↦ then_with (compare a b) (view_loop fuel left right)
]

-- `TextView::natural_cmp`: equal first regions are skipped.
unfoldable pub view_natural_cmp : TextView → TextView → Ordering
unfolding natural_cmp_folded view_loop
view_natural_cmp a b =
    if text_eq a.prefix b.prefix && ends_without_digit (as_bytes a.prefix)
    then natural_cmp_folded (as_bytes a.suffix) (as_bytes b.suffix)
    else view_loop (suc (length (view_bytes a))) (view_bytes a) (view_bytes b)
