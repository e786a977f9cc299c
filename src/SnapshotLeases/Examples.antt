-- ===== src/SnapshotLeases/Examples.antt =====
-- Tests of core/src/snapshot_leases.rs: snapshots are numbers, a lease lasts for ten units.
use apfsearch.Prelude.{ℕ, ◌≡◌, refl, List, [], ◌∷◌, arith}
use apfsearch.Result.{ok, err, lease_expired}
use apfsearch.Text.{Text}
use apfsearch.SnapshotLeases.{
  window, operation, SnapshotLeases, new, get_at, retain_owned_at, retain_live, unexpired, lookup,
  remove, count_owner,
}
use apfsearch.SnapshotLeases.Records.{IsMap}
use apfsearch.SnapshotLeases.Steps.{
  Operation, retain, get, give_back, discard, enter, read, perform_all,
}
use apfsearch.SnapshotLeases.Bounded.{IsBounded, perform_all-IsBounded}
use apfsearch.SnapshotLeases.Held.{
  Started, granted, ShowsCounter, perform_all_holds, perform_all_expires,
}

abbrev format_id : ℕ → ℕ → ℕ → Text
format_id process generation next = process ∷ b'-' ∷ generation ∷ b'-' ∷ next ∷ []

abbrev generation : ℕ → ℕ
generation s = s

abbrev id : Text
id = format_id 7 3 1

abbrev empty : SnapshotLeases ℕ ℕ
empty = record { records = []; lifetime = 10; capacity = 1 }

abbrev session : List (Operation ℕ ℕ)
session =
    retain 3 5 operation 100
    ∷ retain 4 5 operation 101
    ∷ retain 4 5 window 101
    ∷ get id 105
    ∷ give_back id
    ∷ discard 120
    ∷ []

perform_all-IsBounded_example :
    IsBounded ℕ ℕ (perform_all ℕ ℕ generation format_id 7 session (new ℕ ℕ 10 1, 1)).0
perform_all-IsBounded_example = perform_all-IsBounded ℕ ℕ generation format_id 7 session 10 1 1

format_id-ShowsCounter : ShowsCounter ℕ ℕ generation format_id 7
format_id-ShowsCounter g g' n n' h = cc

-- The leases after a grant to the holder of the identifier.
abbrev after : SnapshotLeases ℕ ℕ
after = (retain_owned_at ℕ ℕ generation format_id 7 1 3 5 operation 100 empty).1

grant : Started ℕ ℕ generation format_id 7 id record { snapshot = 3; preferences = 5 } 100 after 2
unfolding retain_owned_at retain_live count_owner unexpired
grant = granted id 1 3 5 operation 100 empty refl

after-IsMap : IsMap ℕ ℕ after.records
unfolding retain_owned_at retain_live count_owner unexpired remove lookup
after-IsMap = (refl, tt)

-- Other leases are granted, read and released, the lease is read, and expired leases are discarded.
abbrev others : List (Operation ℕ ℕ)
others =
    retain 4 5 window 101
    ∷ get id 105
    ∷ discard 108
    ∷ read (format_id 7 4 2) 108
    ∷ enter 4 5 window 109
    ∷ give_back (format_id 7 4 2)
    ∷ []

perform_all_holds_example :
    (get_at ℕ ℕ id 109 (perform_all ℕ ℕ generation format_id 7 others (after, 2)).0).0
    ≡ ok record { snapshot = 3; preferences = 5 }
unfolding retain_owned_at retain_live count_owner unexpired
perform_all_holds_example =
    perform_all_holds ℕ ℕ generation format_id 7 id record { snapshot = 3; preferences = 5 } 100 2 3
      1 109 after others grant after-IsMap format_id-ShowsCounter refl (omega arith) (omega arith)
      (
        (omega arith, omega arith),
        (
          (omega arith, omega arith),
          (
            (omega arith, omega arith),
            ((omega arith, omega arith), ((omega arith, omega arith), (refl, tt))),
          ),
        ),
      )
      (omega arith)

-- The same without the read of the lease.
abbrev unread : List (Operation ℕ ℕ)
unread = retain 4 5 window 101 ∷ get (format_id 7 4 2) 105 ∷ discard 108 ∷ []

perform_all_expires_example :
    (get_at ℕ ℕ id 110 (perform_all ℕ ℕ generation format_id 7 unread (after, 2)).0).0
    ≡ err lease_expired
unfolding retain_owned_at retain_live count_owner unexpired
perform_all_expires_example =
    perform_all_expires ℕ ℕ generation format_id 7 id record { snapshot = 3; preferences = 5 } 100 2
      3 1 110 after unread grant after-IsMap format_id-ShowsCounter refl (omega arith) (omega arith)
      (tt, (refl, (tt, tt))) (omega arith)
