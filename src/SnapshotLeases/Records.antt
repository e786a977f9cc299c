-- ===== src/SnapshotLeases/Records.antt =====
-- The map of the leases: what its operations leave for each identifier, and how many records.
use apfsearch.Prelude.{ℕ, ◌≤◌, ◌≡◌, refl, Option, none, some, [], ◌∷◌, leb, if◌then◌else◌, arith}
use apfsearch.Text.{Text}
use apfsearch.Text.Equal.{text_eq_sound}
use apfsearch.SnapshotLeases.{
  LeaseOwner, Record, Records, lookup, remove, unexpired, count_owner, renew,
}

module _ (S V : Type 0) where
  -- No identifier has two records.
  abbrev pub IsMap : Records S V → Type 0
  IsMap [] = Unit {0}
  IsMap ((key, r) ∷ records) = (lookup S V key records ≡ none) × IsMap records

  -- A record at a time, which it may not have reached.
  abbrev pub alive : ℕ → Option (Record S V) → Option (Record S V)
  alive now none = none
  alive now (some r) = if leb r.deadline now then none else some r

  lookup-unexpired-none :
      (now : ℕ) (id : Text) (rs : Records S V)
      → lookup S V id rs ≡ none
      → lookup S V id (unexpired S V now rs) ≡ none
  unfolding lookup unexpired
  lookup-unexpired-none now id [] h = refl
  lookup-unexpired-none now id ((key, r) ∷ rs) h = ground (arith, lookup-unexpired-none now id rs)

  pub lookup-unexpired :
      (now : ℕ) (id : Text) (rs : Records S V)
      → IsMap rs
      → lookup S V id (unexpired S V now rs) ≡ alive now (lookup S V id rs)
  unfolding lookup unexpired
  lookup-unexpired now id [] m = refl
  lookup-unexpired now id ((key, r) ∷ rs) m = ground (
    arith,
    lookup-unexpired now id rs m.1,
    text_eq_sound key id,
    lookup-unexpired-none now key rs m.0,
  )

  pub unexpired-IsMap : (now : ℕ) (rs : Records S V) → IsMap rs → IsMap (unexpired S V now rs)
  unfolding unexpired
  unexpired-IsMap now [] m = tt
  unexpired-IsMap now ((key, r) ∷ rs) m =
      ground (arith, unexpired-IsMap now rs m.1, lookup-unexpired-none now key rs m.0)

  pub count_owner-unexpired :
      (owner : LeaseOwner) (now : ℕ) (rs : Records S V)
      → count_owner S V owner (unexpired S V now rs) ≤ count_owner S V owner rs
  unfolding count_owner unexpired
  count_owner-unexpired owner now [] = omega arith
  count_owner-unexpired owner now ((key, r) ∷ rs) =
      ground (arith, count_owner-unexpired owner now rs)

  pub lookup-remove : (id : Text) (rs : Records S V) → lookup S V id (remove S V id rs) ≡ none
  unfolding lookup remove
  lookup-remove id [] = refl
  lookup-remove id ((key, r) ∷ rs) = ground (arith, lookup-remove id rs)

  lookup-remove_none :
      (other id : Text) (rs : Records S V)
      → lookup S V other rs ≡ none
      → lookup S V other (remove S V id rs) ≡ none
  unfolding lookup remove
  lookup-remove_none other id [] h = refl
  lookup-remove_none other id ((key, r) ∷ rs) h = ground (arith, lookup-remove_none other id rs)

  pub remove-IsMap : (id : Text) (rs : Records S V) → IsMap rs → IsMap (remove S V id rs)
  unfolding remove
  remove-IsMap id [] m = tt
  remove-IsMap id ((key, r) ∷ rs) m =
      ground (arith, remove-IsMap id rs m.1, lookup-remove_none key id rs m.0)

  pub count_owner-remove :
      (owner : LeaseOwner) (id : Text) (rs : Records S V)
      → count_owner S V owner (remove S V id rs) ≤ count_owner S V owner rs
  unfolding count_owner remove
  count_owner-remove owner id [] = omega arith
  count_owner-remove owner id ((key, r) ∷ rs) = ground (arith, count_owner-remove owner id rs)

  -- A record with a new deadline.
  abbrev pub renewed : ℕ → Option (Record S V) → Option (Record S V)
  renewed deadline none = none
  renewed deadline (some r) = some record r { deadline = deadline }

  pub lookup-renew :
      (id : Text) (deadline : ℕ) (rs : Records S V)
      → lookup S V id (renew S V id deadline rs) ≡ renewed deadline (lookup S V id rs)
  unfolding lookup renew
  lookup-renew id deadline [] = refl
  lookup-renew id deadline ((key, r) ∷ rs) = ground (arith, lookup-renew id deadline rs)

  lookup-renew-none :
      (other id : Text) (deadline : ℕ) (rs : Records S V)
      → lookup S V other rs ≡ none
      → lookup S V other (renew S V id deadline rs) ≡ none
  unfolding lookup renew
  lookup-renew-none other id deadline [] h = refl
  lookup-renew-none other id deadline ((key, r) ∷ rs) h =
      ground (arith, lookup-renew-none other id deadline rs)

  pub renew-IsMap :
      (id : Text) (deadline : ℕ) (rs : Records S V) → IsMap rs → IsMap (renew S V id deadline rs)
  unfolding renew
  renew-IsMap id deadline [] m = tt
  renew-IsMap id deadline ((key, r) ∷ rs) m =
      ground (arith, renew-IsMap id deadline rs m.1, lookup-renew-none key id deadline rs m.0)

  pub count_owner-renew :
      (owner : LeaseOwner) (id : Text) (deadline : ℕ) (rs : Records S V)
      → count_owner S V owner (renew S V id deadline rs) ≡ count_owner S V owner rs
  unfolding count_owner renew
  count_owner-renew owner id deadline [] = refl
  count_owner-renew owner id deadline ((key, r) ∷ rs) =
      ground (arith, count_owner-renew owner id deadline rs)
