-- ===== src/SnapshotLeases/Others.antt =====
-- What the operations on the map of the leases leave of other identifiers.
use apfsearch.Prelude.{ℕ, ◌≡◌, refl, false, [], ◌∷◌, Bool-cases, inl, inr}
use apfsearch.Text.{Text, text_eq}
use apfsearch.Text.Equal.{text_eq_sound}
use apfsearch.SnapshotLeases.{Records, lookup, remove, renew}

module _ (S V : Type 0) (id other : Text) (differ : text_eq other id ≡ false) where
  pub lookup-remove_apart :
      (rs : Records S V) → lookup S V id (remove S V other rs) ≡ lookup S V id rs
  unfolding lookup remove
  lookup-remove_apart [] = refl
  lookup-remove_apart ((key, r) ∷ rs) = elim (Bool-cases (text_eq key other)) [
    | inl e ↦
        let same : key ≡ other = text_eq_sound key other e in
        let apart : text_eq key id ≡ false = rw same differ in
        rw (e, remove, apart) (lookup-remove_apart rs)
    | inr n ↦ elim (Bool-cases (text_eq key id)) [
      | inl f ↦ rw (n, lookup, f) refl
      | inr g ↦ rw (n, lookup, g) (lookup-remove_apart rs)
    ]
  ]

  pub lookup-renew_apart :
      (deadline : ℕ) (rs : Records S V)
      → lookup S V id (renew S V other deadline rs) ≡ lookup S V id rs
  unfolding lookup renew
  lookup-renew_apart deadline [] = refl
  lookup-renew_apart deadline ((key, r) ∷ rs) = elim (Bool-cases (text_eq key other)) [
    | inl e ↦
        let same : key ≡ other = text_eq_sound key other e in
        let apart : text_eq key id ≡ false = rw same differ in rw (e, lookup, apart) refl
    | inr n ↦ elim (Bool-cases (text_eq key id)) [
      | inl f ↦ rw (n, lookup, f) refl
      | inr g ↦ rw (n, lookup, g) (lookup-renew_apart deadline rs)
    ]
  ]
