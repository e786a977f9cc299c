-- ===== src/SnapshotLeases/Due.antt =====
-- A lease that nobody reads is due, whatever other operations run.
use apfsearch.Prelude.{
  ℕ, ◌+◌, ◌^◌, ◌≤◌, ◌<◌, ◌≡◌, sym, ◌∙◌, false, Option, none, some, List, [], ◌∷◌, leb, length, All,
  arith, Bool-cases, inl, inr,
}
use apfsearch.Text.{Text, text_eq}
use apfsearch.Text.Equal.{text_eq_sound}
use apfsearch.SnapshotLeases.{
  LeaseOwner, SnapshotLeases, Record, lookup, remove, count_owner, discard_expired_at, get_at,
  get_live, release, retain_owned_at, retain_live, capacity_of,
}
use apfsearch.SnapshotLeases.Records.{
  IsMap, alive, unexpired-IsMap, lookup-unexpired, renew-IsMap, lookup-remove, remove-IsMap,
}
use apfsearch.SnapshotLeases.Others.{lookup-remove_apart, lookup-renew_apart}
use apfsearch.SnapshotLeases.Steps.{
  Operation, retain, get, give_back, discard, enter, read, perform, perform_all,
}
use apfsearch.SnapshotLeases.Kept.{IsFresh, retain_live-next}

module _ (S V : Type 0) (id : Text) (until : ℕ) where
  -- A record of the identifier, if there is one, has no later deadline.
  abbrev pub IsDue : SnapshotLeases S V → Type 0
  IsDue leases =
      IsMap S V leases.records
      × ((r : Record S V) → lookup S V id leases.records ≡ some r → r.deadline ≤ until)

  alive_before :
      (now : ℕ) (o : Option (Record S V)) (r : Record S V) → alive S V now o ≡ some r → o ≡ some r
  alive_before now none r h = h
  alive_before now (some q) r h = elim (Bool-cases (leb q.deadline now)) [
    | inl e ↦ let gone : none ≡ some r = rw e at h in cc
    | inr n ↦ rw n at h
  ]

  discard-Due :
      (now : ℕ) (leases : SnapshotLeases S V)
      → IsDue leases
      → IsDue (discard_expired_at S V now leases).1
  unfolding discard_expired_at
  discard-Due now leases (m, d) = (
    unexpired-IsMap S V now leases.records m,
    λ r e. d r (
        alive_before now (lookup S V id leases.records) r
          (sym (lookup-unexpired S V now id leases.records m) ∙ e)),
  )

  release-Due :
      (other : Text) (leases : SnapshotLeases S V)
      → IsDue leases
      → IsDue (release S V other leases).1
  unfolding release
  release-Due other leases (m, d) = elim (Bool-cases (text_eq other id)) [
    | inl t ↦
        let same : other ≡ id = text_eq_sound other id t in
        let gone : lookup S V id (remove S V other leases.records) ≡ none =
          rw same (lookup-remove S V id leases.records) in
        (remove-IsMap S V other leases.records m, λ r e. cc)
    | inr n ↦ (
      remove-IsMap S V other leases.records m,
      λ r e. d r (sym (lookup-remove_apart S V id other n leases.records) ∙ e),
    )
  ]

  get_live-Due :
      (other : Text) (now : ℕ) (leases : SnapshotLeases S V) (o : Option (Record S V))
      → text_eq other id ≡ false
      → IsDue leases
      → IsDue (get_live S V other now leases o).1
  unfolding get_live
  get_live-Due other now leases none differ k = k
  get_live-Due other now leases (some q) differ (m, d) =
      let deadline = now + leases.lifetime in
      (
        renew-IsMap S V other deadline leases.records m,
        λ r e. d r (sym (lookup-renew_apart S V id other differ deadline leases.records) ∙ e),
      )

  -- Any operation but a read of the lease.
  abbrev pub IsElsewhere : Operation S V → Type 0
  IsElsewhere (get other now) = text_eq other id ≡ false
  IsElsewhere (read other now) = text_eq other id ≡ false
  IsElsewhere _ = Unit {0}

  module _ (generation : S → ℕ) (format_id : ℕ → ℕ → ℕ → Text) (process : ℕ) where
    retain_live-Due :
        (next : ℕ) (s : S) (v : V) (owner : LeaseOwner) (now : ℕ) (leases : SnapshotLeases S V)
        → text_eq (format_id process (generation s) next) id ≡ false
        → IsDue leases
        → IsDue (retain_live S V generation format_id process next s v owner now leases).1
    unfolding retain_live lookup
    retain_live-Due next s v owner now leases differ (m, d) =
        let made = format_id process (generation s) next in
        let full = leb (capacity_of S V leases owner) (count_owner S V owner leases.records) in
        elim (Bool-cases full) [
          | inl f ↦ rw f (m, d)
          | inr n ↦
              rw (n, lookup, differ)
                (
                  (lookup-remove S V made leases.records, remove-IsMap S V made leases.records m),
                  λ r e. d r (sym (lookup-remove_apart S V id made differ leases.records) ∙ e),
                )
        ]

    abbrev state_of : Operation S V → SnapshotLeases S V → ℕ → SnapshotLeases S V × ℕ
    state_of o leases next = perform S V generation format_id process o (leases, next)

    perform-Due :
        (o : Operation S V) (leases : SnapshotLeases S V) (next : ℕ)
        → IsElsewhere o
        → next + 1 < 2 ^ 64
        → IsFresh S V id generation format_id process next
        → IsDue leases
        → IsDue (state_of o leases next).0
          × ((next ≤ (state_of o leases next).1) × ((state_of o leases next).1 ≤ next + 1))
    unfolding perform retain_owned_at get_at
    perform-Due (retain s v owner now) leases next h small fresh k =
        let live = (discard_expired_at S V now leases).1 in
        (
          retain_live-Due next s v owner now live (fresh s next (omega arith))
              (discard-Due now leases k),
          retain_live-next S V generation format_id process next s v owner now live small,
        )
    perform-Due (enter s v owner now) leases next h small fresh k = (
      retain_live-Due next s v owner now leases (fresh s next (omega arith)) k,
      retain_live-next S V generation format_id process next s v owner now leases small,
    )
    perform-Due (get other now) leases next h small fresh k =
        let live = (discard_expired_at S V now leases).1 in
        (
          get_live-Due other now live (lookup S V other live.records) h (discard-Due now leases k),
          (omega arith, omega arith),
        )
    perform-Due (read other now) leases next h small fresh k = (
      get_live-Due other now leases (lookup S V other leases.records) h k,
      (omega arith, omega arith),
    )
    perform-Due (give_back other) leases next h small fresh k =
        (release-Due other leases k, (omega arith, omega arith))
    perform-Due (discard now) leases next h small fresh k =
        (discard-Due now leases k, (omega arith, omega arith))

    pub perform_all-Due :
        (os : List (Operation S V)) (leases : SnapshotLeases S V) (next : ℕ)
        → All IsElsewhere os
        → next + length os < 2 ^ 64
        → IsFresh S V id generation format_id process next
        → IsDue leases
        → IsDue (perform_all S V generation format_id process os (leases, next)).0
    unfolding perform_all
    perform_all-Due [] leases next h small fresh k = k
    perform_all-Due (o ∷ os) leases next (h, hs) small fresh k =
        let (kept, (low, high)) = perform-Due o leases next h (omega arith) fresh k in
        perform_all-Due os (state_of o leases next).0 (state_of o leases next).1 hs (omega arith)
          (λ s n le. fresh s n (omega arith)) kept
