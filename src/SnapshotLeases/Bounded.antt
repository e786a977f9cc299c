-- ===== src/SnapshotLeases/Bounded.antt =====
-- How many leases are held at once.
use apfsearch.Prelude.{
  ℕ, ◌+◌, ◌≤◌, Option, none, some, List, [], ◌∷◌, leb, arith, Bool-cases, inl, inr,
}
use apfsearch.Text.{Text}
use apfsearch.SnapshotLeases.{
  LeaseOwner, window, operation, SnapshotLeases, Record, lookup, count_owner, new,
  discard_expired_at, get_at, get_live, release, retain_owned_at, retain_live,
}
use apfsearch.SnapshotLeases.Records.{
  IsMap, unexpired-IsMap, count_owner-unexpired, lookup-remove, remove-IsMap, count_owner-remove,
  renew-IsMap, count_owner-renew,
}
use apfsearch.SnapshotLeases.Steps.{
  Operation, retain, get, give_back, discard, enter, read, perform, perform_all,
}

module _ (S V : Type 0) where
  -- The identifiers are those of a map, and neither owner has more records than its capacity.
  abbrev pub IsBounded : SnapshotLeases S V → Type 0
  IsBounded leases =
      IsMap S V leases.records
      × (count_owner S V window leases.records ≤ 128)
      × (count_owner S V operation leases.records ≤ leases.capacity)

  discard-IsBounded :
      (now : ℕ) (leases : SnapshotLeases S V)
      → IsBounded leases
      → IsBounded (discard_expired_at S V now leases).1
  unfolding discard_expired_at
  discard-IsBounded now leases (m, w, o) = (
    unexpired-IsMap S V now leases.records m,
    omega (arith, w, count_owner-unexpired S V window now leases.records),
    omega (arith, o, count_owner-unexpired S V operation now leases.records),
  )

  get_live-IsBounded :
      (id : Text) (now : ℕ) (o : Option (Record S V)) (live : SnapshotLeases S V)
      → IsBounded live
      → IsBounded (get_live S V id now live o).1
  unfolding get_live
  get_live-IsBounded id now none live b = b
  get_live-IsBounded id now (some r) live (m, w, o) =
      let deadline = now + live.lifetime in
      (
        renew-IsMap S V id deadline live.records m,
        omega (arith, w, count_owner-renew S V window id deadline live.records),
        omega (arith, o, count_owner-renew S V operation id deadline live.records),
      )

  get-IsBounded :
      (id : Text) (now : ℕ) (leases : SnapshotLeases S V)
      → IsBounded leases
      → IsBounded (get_at S V id now leases).1
  unfolding get_at
  get-IsBounded id now leases b =
      let live = (discard_expired_at S V now leases).1 in
      get_live-IsBounded id now (lookup S V id live.records) live (discard-IsBounded now leases b)

  release-IsBounded :
      (id : Text) (leases : SnapshotLeases S V)
      → IsBounded leases
      → IsBounded (release S V id leases).1
  unfolding release
  release-IsBounded id leases (m, w, o) = (
    remove-IsMap S V id leases.records m,
    omega (arith, w, count_owner-remove S V window id leases.records),
    omega (arith, o, count_owner-remove S V operation id leases.records),
  )

  module _ (generation : S → ℕ) (format_id : ℕ → ℕ → ℕ → Text) (process : ℕ) where
    retain_live-IsBounded :
        (next : ℕ) (s : S) (v : V) (owner : LeaseOwner) (now : ℕ) (leases : SnapshotLeases S V)
        → IsBounded leases
        → IsBounded (retain_live S V generation format_id process next s v owner now leases).1
    unfolding retain_live count_owner
    retain_live-IsBounded next s v window now leases (m, w, o) =
        let id = format_id process (generation s) next in
        let alone = lookup-remove S V id leases.records in
        let others = remove-IsMap S V id leases.records m in
        let windows = count_owner-remove S V window id leases.records in
        let operations = count_owner-remove S V operation id leases.records in
        elim (Bool-cases (leb 128 (count_owner S V window leases.records))) [
          | inl e ↦ rw e (m, w, o)
          | inr n ↦ rw n ((alone, others), ground arith, ground arith)
        ]
    retain_live-IsBounded next s v operation now leases (m, w, o) =
        let id = format_id process (generation s) next in
        let alone = lookup-remove S V id leases.records in
        let others = remove-IsMap S V id leases.records m in
        let windows = count_owner-remove S V window id leases.records in
        let operations = count_owner-remove S V operation id leases.records in
        elim (Bool-cases (leb leases.capacity (count_owner S V operation leases.records))) [
          | inl e ↦ rw e (m, w, o)
          | inr n ↦ rw n ((alone, others), ground arith, ground arith)
        ]

    perform-IsBounded :
        (o : Operation S V) (leases : SnapshotLeases S V) (next : ℕ)
        → IsBounded leases
        → IsBounded (perform S V generation format_id process o (leases, next)).0
    unfolding perform retain_owned_at
    perform-IsBounded (retain s v owner now) leases next b =
        retain_live-IsBounded next s v owner now (discard_expired_at S V now leases).1
          (discard-IsBounded now leases b)
    perform-IsBounded (get id now) leases next b = get-IsBounded id now leases b
    perform-IsBounded (give_back id) leases next b = release-IsBounded id leases b
    perform-IsBounded (discard now) leases next b = discard-IsBounded now leases b
    perform-IsBounded (enter s v owner now) leases next b =
        retain_live-IsBounded next s v owner now leases b
    perform-IsBounded (read id now) leases next b =
        get_live-IsBounded id now (lookup S V id leases.records) leases b

    perform_all_keeps :
        (os : List (Operation S V)) (leases : SnapshotLeases S V) (next : ℕ)
        → IsBounded leases
        → IsBounded (perform_all S V generation format_id process os (leases, next)).0
    unfolding perform_all
    perform_all_keeps [] leases next b = b
    perform_all_keeps (o ∷ os) leases next b =
        perform_all_keeps os (perform S V generation format_id process o (leases, next)).0
          (perform S V generation format_id process o (leases, next)).1
          (perform-IsBounded o leases next b)

    -- After any sequence of operations and of parts of them, at any times, on new leases, no identifier has two records,
    -- at most 128 leases are held for windows, and at most as many as the capacity for operations.
    pub perform_all-IsBounded :
        (os : List (Operation S V)) (lifetime capacity next : ℕ)
        → IsBounded
            (perform_all S V generation format_id process os (new S V lifetime capacity, next)).0
    unfolding new count_owner
    perform_all-IsBounded os lifetime capacity next =
        perform_all_keeps os (new S V lifetime capacity) next (tt, omega arith, omega arith)
