-- ===== src/OrderedMerge/Order.antt =====
-- What a comparison must promise, sortedness under it, and the reference merge of two sorted
-- lists, in which an existing item stands before a new one with an equal key.
use apfsearch.Prelude.{
  ℕ, ◌≡◌, Bool, true, false, List, [], ◌∷◌, ◌++◌, Ordering, arith, All, Bool-cases, inl, inr,
}
use mathlib.Core.List.{Perm}
use mathlib.Core.List.Perm
use mathlib.Core.List.{perm_middle}
use apfsearch.OrderedMerge.{not_gt}

-- A total preorder.
pub record IsOrder (compare : ℕ → ℕ → Ordering) : Type 0 where
  pub trans :
      (a b c : ℕ)
      → not_gt compare a b ≡ true
      → not_gt compare b c ≡ true
      → not_gt compare a c ≡ true
  pub total : (a b : ℕ) → not_gt compare a b ≡ false → not_gt compare b a ≡ true

module _ (compare : ℕ → ℕ → Ordering) where
  abbrev pub Below : ℕ → List ℕ → Type 0
  Below a = All (λ b. not_gt compare a b ≡ true)

  abbrev pub IsSorted : List ℕ → Type 0
  IsSorted [] = Unit {0}
  IsSorted (x ∷ xs) = Below x xs × IsSorted xs

  unfoldable pub merge : List ℕ → List ℕ → List ℕ
  merge [] new = new
  merge (x ∷ old) [] = x ∷ old
  merge (x ∷ old) (r ∷ new) = elim (not_gt compare x r) [
    | true ↦ x ∷ merge old (r ∷ new)
    | false ↦ r ∷ merge (x ∷ old) new
  ]

  pub merge-perm : (old new : List ℕ) → Perm (merge old new) (old ++ new)
  unfolding merge
  merge-perm [] new = Perm.refl new
  merge-perm (x ∷ old) [] = Perm.cons x (merge-perm_nil old)
    where
      merge-perm_nil : (l : List ℕ) → Perm l (l ++ [])
      merge-perm_nil [] = Perm.refl []
      merge-perm_nil (y ∷ l) = Perm.cons y (merge-perm_nil l)
  merge-perm (x ∷ old) (r ∷ new) =
      split (not_gt compare x r) (merge-perm old (r ∷ new)) (merge-perm (x ∷ old) new)
    where
      split :
          (b : Bool)
          → Perm (merge old (r ∷ new)) (old ++ (r ∷ new))
          → Perm (merge (x ∷ old) new) (x ∷ (old ++ new))
          → Perm
              (elim b [ true ↦ x ∷ merge old (r ∷ new) | false ↦ r ∷ merge (x ∷ old) new ])
              (x ∷ (old ++ (r ∷ new)))
      split true p q = Perm.cons x p
      split false p q = Perm.trans (Perm.cons r q) (Perm.symm (perm_middle (x ∷ old) new))

  Below-merge : (a : ℕ) (old new : List ℕ) → Below a old → Below a new → Below a (merge old new)
  unfolding merge
  Below-merge a [] new p q = q
  Below-merge a (x ∷ old) [] p q = p
  Below-merge a (x ∷ old) (r ∷ new) p q =
      ground (arith, Below-merge a old (r ∷ new) p.1 q, Below-merge a (x ∷ old) new p q.1)

  Below-trans :
      IsOrder compare → (a b : ℕ) (l : List ℕ) → not_gt compare a b ≡ true → Below b l → Below a l
  Below-trans o a b [] h p = tt
  Below-trans o a b (x ∷ l) h p = (o.trans a b x h p.0, Below-trans o a b l h p.1)

  pub merge-IsSorted :
      IsOrder compare → (old new : List ℕ) → IsSorted old → IsSorted new → IsSorted (merge old new)
  unfolding merge
  merge-IsSorted o [] new p q = q
  merge-IsSorted o (x ∷ old) [] p q = p
  merge-IsSorted o (x ∷ old) (r ∷ new) p q = elim (Bool-cases (not_gt compare x r)) [
    | inl e ↦
        rw (e, merge)
          (
            Below-merge x old (r ∷ new) p.0 (e, Below-trans o x r new e q.0),
            merge-IsSorted o old (r ∷ new) p.1 q,
          )
    | inr e ↦
        rw (e, merge)
          (
            Below-merge r (x ∷ old) new (o.total x r e, Below-trans o r x old (o.total x r e) p.0)
                q.0,
            merge-IsSorted o (x ∷ old) new p q.1,
          )
  ]
