-- ===== src/TextView.antt =====
-- Substring search in a text of two regions, core/src/text_view.rs.
use apfsearch.Prelude.{
  ℕ, suc, ◌+◌, ◌-◌, Bool, true, false, not, ◌&&◌, ◌||◌, Option, none, some, [], ◌∷◌, ◌++◌, ltb, leb,
  ◌==◌, if◌then◌else◌, length, take, drop, min,
}
use apfsearch.Text.{Bytes, TextView, as_bytes, starts_with, is_empty}

-- `bytes.ends_with(tail)`
abbrev pub ends_with : Bytes → Bytes → Bool
ends_with bytes tail =
    leb (length tail) (length bytes) && starts_with (drop (length bytes - length tail) bytes) tail

abbrev pub has_byte : ℕ → Bytes → Bool
has_byte b [] = false
has_byte b (a ∷ bytes) = (a == b) || has_byte b bytes

-- `bytes.iter().rposition(|&byte| byte == b)`
pub rposition : ℕ → Bytes → Option ℕ
rposition b [] = none
rposition b (a ∷ bytes) = elim (rposition b bytes) [
  | some i ↦ some (suc i)
  | none ↦ if a == b then some 0 else none
]

abbrev pub is_some {ℓ} : {A : Type ℓ} → Option A → Bool
is_some none = false
is_some (some a) = true

module _ (find : Bytes → Bytes → Option ℕ) where
  -- The last separator of the needle must meet the join.
  pub meets_join : Bytes → Bytes → Bytes → Option ℕ → Bool
  meets_join prefix suffix needle none = false
  meets_join prefix suffix needle (some separator) =
      let split = separator + 1 in
      ltb split (length needle)
      && (ends_with prefix (take split needle) && starts_with suffix (drop split needle))

  pub crosses_boundary : Bytes → Bytes → Bytes → Bool
  unfolding meets_join rposition
  crosses_boundary prefix suffix needle =
      let overlap = length needle - 1 in
      if (overlap == 0) || (is_empty prefix || is_empty suffix)
      then false
      else if ends_with prefix (b'/' ∷ []) && not (has_byte b'/' suffix)
      then meets_join prefix suffix needle (rposition b'/' needle)
      else is_some (
          find needle
            (drop (length prefix - overlap) prefix ++ take (min (length suffix) overlap) suffix))

  pub view_contains : Bytes → Bytes → Bytes → Bool
  view_contains prefix suffix needle =
      is_some (find needle prefix)
      || (is_some (find needle suffix) || crosses_boundary prefix suffix needle)

  -- `view.contains(finder)`
  pub TextView_contains : TextView → Bytes → Bool
  unfolding view_contains
  TextView_contains view needle = view_contains (as_bytes view.prefix) (as_bytes view.suffix) needle
