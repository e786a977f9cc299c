-- ===== src/SlotOrder/Ranks.antt =====
-- The directory of ends and the ranks.
use apfsearch.Prelude.{
  ℕ, zero, suc, ◌+◌, ◌-◌, ◌≤◌, ◌<◌, ◌≡◌, refl, sym, ap, ◌∙◌, Option, none, some, List, [], ◌∷◌,
  ◌++◌, flatten, leb, length, get_elem?, partition_point, ◌>>=◌, arith, Bool-cases, inl, inr,
  get-append_above, length-append,
}
use apfsearch.SlotOrder.{ends_from, from_blocks, last_end, len, iter, get_leaf, get}

-- The start of a block, where the blocks begin at `base`.
abbrev pub start_from : ℕ → List (List ℕ) → ℕ → Option ℕ
start_from base blocks zero = some base
start_from base blocks (suc block) = get_elem? (ends_from base blocks) block

abbrev leaf_from : ℕ → List (List ℕ) → ℕ → ℕ → Option (List ℕ) → Option (Option ℕ)
leaf_from base blocks block rank none = some none
leaf_from base blocks block rank (some leaf) =
    start_from base blocks block >>= λ s. get_elem? leaf (rank - s) >>= λ slot. some (some slot)

abbrev pub block_from : ℕ → List (List ℕ) → ℕ → ℕ
block_from base blocks rank = partition_point (λ end. leb end rank) (ends_from base blocks)

lookup_within :
    (leaf rest : List ℕ) (i : ℕ)
    → i < length leaf
    → (get_elem? leaf i >>= λ slot. some (some slot)) ≡ some (get_elem? (leaf ++ rest) i)
lookup_within [] rest i h = absurd (omega arith)
lookup_within (a ∷ leaf) rest zero h = refl
lookup_within (a ∷ leaf) rest (suc i) h = lookup_within leaf rest i (omega arith)

-- The start of a block beyond the first is that of the blocks behind the first.
pub start_shift :
    (base : ℕ) (b : List ℕ) (blocks : List (List ℕ)) (k : ℕ)
    → start_from base (b ∷ blocks) (suc k) ≡ start_from (base + length b) blocks k
unfolding ends_from
start_shift base b blocks zero = refl
start_shift base b blocks (suc k) = refl

leaf_shift :
    (base : ℕ) (b : List ℕ) (blocks : List (List ℕ)) (k rank : ℕ) (o : Option (List ℕ))
    → leaf_from base (b ∷ blocks) (suc k) rank o ≡ leaf_from (base + length b) blocks k rank o
unfolding ends_from
leaf_shift base b blocks k rank none = refl
leaf_shift base b blocks zero rank (some leaf) = refl
leaf_shift base b blocks (suc k) rank (some leaf) = refl

find_from :
    (base : ℕ) (blocks : List (List ℕ)) (rank : ℕ)
    → base ≤ rank
    → leaf_from base blocks
        (block_from base blocks rank)
        rank
        (get_elem? blocks (block_from base blocks rank))
      ≡ some (get_elem? (flatten blocks) (rank - base))
unfolding ends_from flatten
find_from base [] rank h = refl
find_from base (b ∷ blocks) rank h = elim (Bool-cases (leb (base + length b) rank)) [
  | inl e ↦
      let k = block_from (base + length b) blocks rank in
      let at : rank - base - length b ≡ rank - (base + length b) = omega arith in
      rw e (
        leaf_shift base b blocks k rank (get_elem? blocks k)
        ∙ (find_from (base + length b) blocks rank (ground arith)
            ∙ ap some
                (sym (rw⁻¹ at (get-append_above b (flatten blocks) (rank - base) (ground arith))))))
  | inr n ↦ rw n (lookup_within b (flatten blocks) (rank - base) (ground arith))
]

get_leaf-start :
    (blocks : List (List ℕ)) (block rank : ℕ) (o : Option (List ℕ))
    → get_leaf (from_blocks blocks) block rank o ≡ leaf_from 0 blocks block rank o
unfolding get_leaf from_blocks
get_leaf-start blocks block rank none = refl
get_leaf-start blocks zero rank (some leaf) = refl
get_leaf-start blocks (suc block) rank (some leaf) = refl

-- For every list of blocks and every rank, in range or not, `get` does not panic and returns what
-- stands at the rank in the sequence of all slots.
pub get-from_blocks :
    (blocks : List (List ℕ)) (rank : ℕ)
    → get (from_blocks blocks) rank ≡ some (get_elem? (iter (from_blocks blocks)) rank)
unfolding get from_blocks iter
get-from_blocks blocks rank =
    let k = block_from 0 blocks rank in
    let whole : rank - 0 ≡ rank = omega arith in
    get_leaf-start blocks k rank (get_elem? blocks k)
    ∙ (find_from 0 blocks rank (omega arith) ∙ rw whole refl)

last_end-ends_from :
    (base : ℕ) (b : List ℕ) (blocks : List (List ℕ))
    → last_end (ends_from base (b ∷ blocks)) ≡ base + length (flatten (b ∷ blocks))
unfolding last_end ends_from flatten
last_end-ends_from base b [] = omega (arith, length-append b [])
last_end-ends_from base b (c ∷ blocks) =
    omega
      (arith, last_end-ends_from (base + length b) c blocks, length-append b (flatten (c ∷ blocks)))

-- The length that the directory gives is the number of all slots.
pub len-from_blocks :
    (blocks : List (List ℕ)) → len (from_blocks blocks) ≡ length (iter (from_blocks blocks))
unfolding from_blocks iter last_end flatten ends_from
len-from_blocks [] = refl
len-from_blocks (b ∷ blocks) = omega (arith, last_end-ends_from 0 b blocks)
