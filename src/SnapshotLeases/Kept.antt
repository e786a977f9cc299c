-- ===== src/SnapshotLeases/Kept.antt =====
-- A lease that is held stays held while other operations run.
use apfsearch.Prelude.{
  ℕ, ◌+◌, ◌^◌, ◌≤◌, ◌<◌, ◌≡◌, refl, ap, ◌∙◌, false, Option, none, some, List, [], ◌∷◌, leb, length,
  All, arith, Bool-cases, inl, inr,
}
use native.Mathlib.Nat.{mod-eq_of_lt}
use apfsearch.Text.{Text, text_eq}
use apfsearch.Text.Equal.{text_eq_sound}
use apfsearch.SnapshotLeases.{
  LeaseOwner, SnapshotLeases, LeaseContext, Record, lookup, unexpired, count_owner, renew,
  discard_expired_at, get_at, get_live, release, retain_owned_at, retain_live, capacity_of,
}
use apfsearch.SnapshotLeases.Records.{
  IsMap, alive, unexpired-IsMap, lookup-unexpired, lookup-renew, renew-IsMap, lookup-remove,
  remove-IsMap,
}
use apfsearch.SnapshotLeases.Others.{lookup-remove_apart, lookup-renew_apart}
use apfsearch.SnapshotLeases.Steps.{
  Operation, retain, get, give_back, discard, enter, read, perform, perform_all,
}

module _ (S V : Type 0) (generation : S → ℕ) (format_id : ℕ → ℕ → ℕ → Text) (process : ℕ) where
  -- The counter grows by one at most.
  pub retain_live-next :
      (next : ℕ) (s : S) (v : V) (owner : LeaseOwner) (now : ℕ) (leases : SnapshotLeases S V)
      → next + 1 < 2 ^ 64
      → (next ≤ (retain_live S V generation format_id process next s v owner now leases).2)
        × ((retain_live S V generation format_id process next s v owner now leases).2 ≤ next + 1)
  unfolding retain_live
  retain_live-next next s v owner now leases small =
      let full = leb (capacity_of S V leases owner) (count_owner S V owner leases.records) in
      elim (Bool-cases full) [
        | inl f ↦ rw f (omega arith, omega arith)
        | inr n ↦ rw n (omega (arith, mod-eq_of_lt small), omega (arith, mod-eq_of_lt small))
      ]

module _ (S V : Type 0) (id : Text) (generation : S → ℕ) (format_id : ℕ → ℕ → ℕ → Text)
    (process : ℕ) where
  -- Identifiers that are still to be granted are not this one.
  abbrev pub IsFresh : ℕ → Type 0
  IsFresh next =
      (s : S) (n : ℕ) → next ≤ n → text_eq (format_id process (generation s) n) id ≡ false

module _ (S V : Type 0) (id : Text) (context : LeaseContext S V) (from lifetime : ℕ) where
  -- The map has a record of the identifier with this context, for the lifetime from then on at
  -- least.
  abbrev pub IsKept : SnapshotLeases S V → Type 0
  IsKept leases =
      (leases.lifetime ≡ lifetime)
      × (IsMap S V leases.records
          × ((r : Record S V) × ((lookup S V id leases.records ≡ some r)
                × ((r.context ≡ context) × (from + lifetime ≤ r.deadline)))))

  alive_meanwhile : (now : ℕ) (r : Record S V) → now < r.deadline → alive S V now (some r) ≡ some r
  alive_meanwhile now r h = let live : leb r.deadline now ≡ false = ground arith in rw live refl

  discard-Kept :
      (now : ℕ) (leases : SnapshotLeases S V)
      → now < from + lifetime
      → IsKept leases
      → IsKept (discard_expired_at S V now leases).1
  unfolding discard_expired_at
  discard-Kept now leases before (l, (m, (r, (e, (c, d))))) =
      let found : lookup S V id (unexpired S V now leases.records) ≡ some r =
        lookup-unexpired S V now id leases.records m
        ∙ ap (alive S V now) e
        ∙ alive_meanwhile now r (omega arith) in
      (l, (unexpired-IsMap S V now leases.records m, (r, (found, (c, d)))))

  release-Kept :
      (other : Text) (leases : SnapshotLeases S V)
      → text_eq other id ≡ false
      → IsKept leases
      → IsKept (release S V other leases).1
  unfolding release
  release-Kept other leases differ (l, (m, (r, (e, (c, d))))) = (
    l,
    (
      remove-IsMap S V other leases.records m,
      (r, (lookup-remove_apart S V id other differ leases.records ∙ e, (c, d))),
    ),
  )

  get_live-Kept :
      (other : Text) (now : ℕ) (leases : SnapshotLeases S V) (o : Option (Record S V))
      → from ≤ now
      → IsKept leases
      → IsKept (get_live S V other now leases o).1
  unfolding get_live
  get_live-Kept other now leases none after k = k
  get_live-Kept other now leases (some q) after (l, (m, (r, (e, (c, d))))) =
      let deadline = now + leases.lifetime in
      let map = renew-IsMap S V other deadline leases.records m in
      elim (Bool-cases (text_eq other id)) [
        | inl t ↦
            let same : other ≡ id = text_eq_sound other id t in
            let renewed : Record S V = record r { deadline = deadline } in
            let found : lookup S V id (renew S V other deadline leases.records) ≡ some renewed =
              rw (same, lookup-renew S V id deadline leases.records, e) refl in
            (l, (map, (renewed, (found, (c, omega (arith, l))))))
        | inr n ↦
            (l, (map, (r, (lookup-renew_apart S V id other n deadline leases.records ∙ e, (c, d)))))
      ]

  -- An operation at a time from then on, but before the lifetime is over, that does not give the
  -- lease back.
  abbrev pub IsHarmless : Operation S V → Type 0
  IsHarmless (retain s v owner now) = (from ≤ now) × (now < from + lifetime)
  IsHarmless (get other now) = (from ≤ now) × (now < from + lifetime)
  IsHarmless (give_back other) = text_eq other id ≡ false
  IsHarmless (discard now) = (from ≤ now) × (now < from + lifetime)
  IsHarmless (enter s v owner now) = (from ≤ now) × (now < from + lifetime)
  IsHarmless (read other now) = (from ≤ now) × (now < from + lifetime)

  module _ (generation : S → ℕ) (format_id : ℕ → ℕ → ℕ → Text) (process : ℕ) where
    retain_live-Kept :
        (next : ℕ) (s : S) (v : V) (owner : LeaseOwner) (now : ℕ) (leases : SnapshotLeases S V)
        → text_eq (format_id process (generation s) next) id ≡ false
        → IsKept leases
        → IsKept (retain_live S V generation format_id process next s v owner now leases).1
    unfolding retain_live lookup
    retain_live-Kept next s v owner now leases differ (l, (m, (r, (e, (c, d))))) =
        let made = format_id process (generation s) next in
        let full = leb (capacity_of S V leases owner) (count_owner S V owner leases.records) in
        elim (Bool-cases full) [
          | inl f ↦ rw f (l, (m, (r, (e, (c, d)))))
          | inr n ↦
              rw (n, lookup, differ)
                (
                  l,
                  (
                    (lookup-remove S V made leases.records, remove-IsMap S V made leases.records m),
                    (r, (lookup-remove_apart S V id made differ leases.records ∙ e, (c, d))),
                  ),
                )
        ]

    abbrev state_of : Operation S V → SnapshotLeases S V → ℕ → SnapshotLeases S V × ℕ
    state_of o leases next = perform S V generation format_id process o (leases, next)

    perform-Kept :
        (o : Operation S V) (leases : SnapshotLeases S V) (next : ℕ)
        → IsHarmless o
        → next + 1 < 2 ^ 64
        → IsFresh S V id generation format_id process next
        → IsKept leases
        → IsKept (state_of o leases next).0
          × ((next ≤ (state_of o leases next).1) × ((state_of o leases next).1 ≤ next + 1))
    unfolding perform retain_owned_at get_at
    perform-Kept (retain s v owner now) leases next (a, b) small fresh k =
        let live = (discard_expired_at S V now leases).1 in
        (
          retain_live-Kept next s v owner now live (fresh s next (omega arith))
              (discard-Kept now leases b k),
          retain_live-next S V generation format_id process next s v owner now live small,
        )
    perform-Kept (enter s v owner now) leases next (a, b) small fresh k = (
      retain_live-Kept next s v owner now leases (fresh s next (omega arith)) k,
      retain_live-next S V generation format_id process next s v owner now leases small,
    )
    perform-Kept (get other now) leases next (a, b) small fresh k =
        let live = (discard_expired_at S V now leases).1 in
        (
          get_live-Kept other now live (lookup S V other live.records) a
              (discard-Kept now leases b k),
          (omega arith, omega arith),
        )
    perform-Kept (read other now) leases next (a, b) small fresh k = (
      get_live-Kept other now leases (lookup S V other leases.records) a k,
      (omega arith, omega arith),
    )
    perform-Kept (give_back other) leases next h small fresh k =
        (release-Kept other leases h k, (omega arith, omega arith))
    perform-Kept (discard now) leases next (a, b) small fresh k =
        (discard-Kept now leases b k, (omega arith, omega arith))

    pub perform_all-Kept :
        (os : List (Operation S V)) (leases : SnapshotLeases S V) (next : ℕ)
        → All IsHarmless os
        → next + length os < 2 ^ 64
        → IsFresh S V id generation format_id process next
        → IsKept leases
        → IsKept (perform_all S V generation format_id process os (leases, next)).0
    unfolding perform_all
    perform_all-Kept [] leases next h small fresh k = k
    perform_all-Kept (o ∷ os) leases next (h, hs) small fresh k =
        let (kept, (low, high)) = perform-Kept o leases next h (omega arith) fresh k in
        perform_all-Kept os (state_of o leases next).0 (state_of o leases next).1 hs (omega arith)
          (λ s n le. fresh s n (omega arith)) kept
