-- ===== src/ResultOrder/Sort/Runs.antt =====
-- Runs of one width that are sorted, and what a pass makes of them.
use apfsearch.Prelude.{
  ℕ, zero, suc, ◌+◌, ◌-◌, ◌*◌, ◌≤◌, ◌≡◌, refl, sym, ap, ◌∙◌, List, [], ◌∷◌, ◌++◌, Ordering, min,
  length, take, drop, usize_max, arith, Bool-cases, inl, inr, ◌⊎◌, leb, drop-drop, drop-all,
  length-drop, length-take, take_left, drop_left, append-nil, append_assoc, subst, take-append-drop,
  take-all,
}
use mathlib.Core.List.{Perm}
use mathlib.Core.List.Perm
use apfsearch.OrderedMerge.Order.{IsOrder, IsSorted, merge, merge-perm, merge-IsSorted}

module _ (compare : ℕ → ℕ → Ordering) where
  -- The first runs of a width are sorted.
  abbrev pub Runs : ℕ → ℕ → List ℕ → Type 0
  Runs zero width l = Unit {0}
  Runs (suc k) width l = IsSorted compare (take width l) × Runs k width (drop width l)

  abbrev pub HasRuns : ℕ → List ℕ → Type 0
  HasRuns width l = (k : ℕ) → Runs k width l

  take-whole :
      (n : ℕ) (a b : List ℕ) → length a ≡ n ⊎ (length b ≡ 0) → length a ≤ n → take n (a ++ b) ≡ a
  take-whole n a b (inl e) le = take_left n a b (sym e)
  take-whole n a [] (inr e) le = rw (append-nil a) (take-all n a le)
  take-whole n a (y ∷ b) (inr e) le = absurd (omega arith)

  drop-whole :
      (n : ℕ) (a b : List ℕ) → length a ≡ n ⊎ (length b ≡ 0) → length a ≤ n → drop n (a ++ b) ≡ b
  drop-whole n a b (inl e) le = drop_left n a b (sym e)
  drop-whole n a [] (inr e) le = rw (append-nil a) (drop-all n a le)
  drop-whole n a (y ∷ b) (inr e) le = absurd (omega arith)

  -- A sorted run in front of others: only the last run may be shorter.
  pub HasRuns-append :
      (width : ℕ) (a b : List ℕ)
      → length a ≡ width ⊎ (length b ≡ 0)
      → length a ≤ width
      → IsSorted compare a
      → HasRuns width b
      → HasRuns width (a ++ b)
  HasRuns-append width a b c le s h zero = tt
  HasRuns-append width a b c le s h (suc k) =
      rw (take-whole width a b c le, drop-whole width a b c le) (s, h k)

  -- What a pass of doubled width takes two runs of, and leaves for the next turn.
  pub drop-doubled :
      (width : ℕ) (l : List ℕ)
      → length l ≤ usize_max
      → drop (min (width * 2) usize_max) l ≡ drop width (drop width l)
  drop-doubled width l small = elim (Bool-cases (leb (width * 2) usize_max)) [
    | inl e ↦ sym (drop-drop width width (min (width * 2) usize_max) l (ground arith))
    | inr n ↦
        let far : length (drop width l) ≤ width = ground (arith, length-drop width l) in
        rw (drop-all width (drop width l) far)
          (drop-all (min (width * 2) usize_max) l (ground arith))
  ]

  abbrev pub merged : ℕ → List ℕ → List ℕ
  merged width l = merge compare (take width l) (take width (drop width l))

  pub merged-perm :
      (width : ℕ) (l rest : List ℕ)
      → Perm rest (drop width (drop width l))
      → Perm (merged width l ++ rest) l
  merged-perm width l rest p =
      let first = take width l in
      let behind = drop width l in
      let whole : (first ++ take width behind) ++ drop width behind ≡ l =
        append_assoc first (take width behind) (drop width behind)
        ∙ (ap (λ m. first ++ m) (take-append-drop width behind) ∙ take-append-drop width l) in
      subst (λ m. Perm (merge compare first (take width behind) ++ rest) m) whole
        (Perm.append (merge-perm compare first (take width behind)) p)

  pub length-merge : (a b : List ℕ) → length (merge compare a b) ≡ length a + length b
  unfolding merge
  length-merge [] b = omega arith
  length-merge (x ∷ a) [] = omega arith
  length-merge (x ∷ a) (r ∷ b) = ground (arith, length-merge a (r ∷ b), length-merge (x ∷ a) b)

  length-merged :
      (width : ℕ) (l : List ℕ)
      → length (merged width l) ≡ min width (length l) + min width (length l - width)
  length-merged width l =
      rw
        (
          length-merge (take width l) (take width (drop width l)),
          length-take width l,
          length-take width (drop width l),
          length-drop width l,
        )
        refl

  length-behind :
      (width : ℕ) (l : List ℕ) → length (drop width (drop width l)) ≡ length l - width - width
  length-behind width l = rw (length-drop width (drop width l), length-drop width l) refl

  full :
      (width : ℕ) (l : List ℕ) (n : ℕ)
      → length l ≤ usize_max
      → n ≡ length (drop width (drop width l))
      → length (merged width l) ≡ min (width * 2) usize_max ⊎ (n ≡ 0)
  full width l n small same = elim (Bool-cases (leb (width * 2) (length l))) [
    | inl e ↦ inl (ground (arith, length-merged width l))
    | inr m ↦ inr (ground (arith, length-behind width l))
  ]

  pub merged-HasRuns :
      (width : ℕ) (l rest : List ℕ)
      → IsOrder compare
      → length l ≤ usize_max
      → HasRuns width l
      → length rest ≡ length (drop width (drop width l))
      → HasRuns (min (width * 2) usize_max) rest
      → HasRuns (min (width * 2) usize_max) (merged width l ++ rest)
  merged-HasRuns width l rest o small h same k =
      HasRuns-append (min (width * 2) usize_max) (merged width l) rest
        (full width l (length rest) small same) (omega (arith, length-merged width l))
        (merge-IsSorted compare o (take width l) (take width (drop width l)) (h 1).0 (h 2).1.0) k
