-- ===== src/SnapshotLeases/Held.antt =====
-- How long a lease of core/src/snapshot_leases.rs is held: from its creation and from each read.
use apfsearch.Prelude.{
  ℕ, ◌+◌, ◌^◌, ◌≤◌, ◌<◌, ◌≡◌, refl, ap, ◌∙◌, true, false, Option, none, some, List, leb, length,
  All, arith, Bool-cases, inl, inr,
}
use apfsearch.Result.{Result, ok, err, lease_expired}
use apfsearch.Text.{Text, text_eq}
use apfsearch.Text.Equal.{text_eq_sound, text_eq_refl}
use apfsearch.SnapshotLeases.{
  LeaseOwner, SnapshotLeases, LeaseContext, Record, lookup, count_owner, renew, discard_expired_at,
  get_at, get_live, retain_owned_at, retain_live, capacity_of,
}
use apfsearch.SnapshotLeases.Records.{IsMap, alive, lookup-unexpired, lookup-renew}
use apfsearch.SnapshotLeases.Steps.{Operation, perform_all}
use apfsearch.SnapshotLeases.Kept.{IsFresh, IsHarmless, perform_all-Kept}
use apfsearch.SnapshotLeases.Due.{IsElsewhere, perform_all-Due}

module _ (S V : Type 0) where
  -- What a read returns for a record.
  abbrev answer : Option (Record S V) → Result (LeaseContext S V)
  answer none = err lease_expired
  answer (some r) = ok r.context

  get_live-answer :
      (id : Text) (now : ℕ) (live : SnapshotLeases S V) (o : Option (Record S V))
      → (get_live S V id now live o).0 ≡ answer o
  unfolding get_live
  get_live-answer id now live none = refl
  get_live-answer id now live (some r) = refl

  get_at-answer :
      (id : Text) (now : ℕ) (leases : SnapshotLeases S V)
      → IsMap S V leases.records
      → (get_at S V id now leases).0 ≡ answer (alive S V now (lookup S V id leases.records))
  unfolding get_at discard_expired_at
  get_at-answer id now leases m = rw (lookup-unexpired S V now id leases.records m) (
      get_live-answer id now (discard_expired_at S V now leases).1
        (alive S V now (lookup S V id leases.records)))

  answer_meanwhile :
      (now : ℕ) (o : Option (Record S V)) (r : Record S V)
      → o ≡ some r
      → now < r.deadline
      → answer (alive S V now o) ≡ ok r.context
  answer_meanwhile now o r e h =
      let live : leb r.deadline now ≡ false = ground arith in rw (e, live) refl

  answer_due :
      (now : ℕ) (o : Option (Record S V))
      → ((r : Record S V) → o ≡ some r → r.deadline ≤ now)
      → answer (alive S V now o) ≡ err lease_expired
  answer_due now none h = refl
  answer_due now (some r) h =
      let late : r.deadline ≤ now = h r refl in
      let gone : leb r.deadline now ≡ true = ground arith in rw gone refl

  module _ (generation : S → ℕ) (format_id : ℕ → ℕ → ℕ → Text) (process : ℕ) where
    -- A lease has been granted or read at a time: its identifier, its context, the time, and the
    -- leases and the counter that this leaves.
    pub data Started : Text → LeaseContext S V → ℕ → SnapshotLeases S V → ℕ → Type 0 where
      granted :
          (id : Text) (next : ℕ) (s : S) (v : V) (owner : LeaseOwner) (now : ℕ)
          (leases : SnapshotLeases S V)
          → (retain_owned_at S V generation format_id process next s v owner now leases).0 ≡ ok id
          → Started id
              record { snapshot = s; preferences = v }
              now
              (retain_owned_at S V generation format_id process next s v owner now leases).1
              (retain_owned_at S V generation format_id process next s v owner now leases).2
      renewed :
          (id : Text) (context : LeaseContext S V) (now next : ℕ) (leases : SnapshotLeases S V)
          → (get_at S V id now leases).0 ≡ ok context
          → Started id context now (get_at S V id now leases).1 next

    -- The map has the lease with its context, until the lifetime has passed.
    abbrev HasLease : Text → LeaseContext S V → ℕ → SnapshotLeases S V → Type 0
    HasLease id context now leases =
        (r : Record S V) × ((lookup S V id leases.records ≡ some r)
          × ((r.context ≡ context) × (r.deadline ≡ now + leases.lifetime)))

    granted_lem :
        (id : Text) (next : ℕ) (s : S) (v : V) (owner : LeaseOwner) (now : ℕ)
        (live : SnapshotLeases S V)
        → (retain_live S V generation format_id process next s v owner now live).0 ≡ ok id
        → HasLease id
            record { snapshot = s; preferences = v }
            now
            (retain_live S V generation format_id process next s v owner now live).1
    unfolding retain_live lookup
    granted_lem id next s v owner now live =
        let made = format_id process (generation s) next in
        let kept : Record S V = record {
          context = record { snapshot = s; preferences = v };
          deadline = now + live.lifetime;
          owner = owner;
        } in
        let full = leb (capacity_of S V live owner) (count_owner S V owner live.records) in
        elim (Bool-cases full) [
          | inl e ↦ rw e (λ h. cc)
          | inr n ↦ rw n (λ h.
              let same : made ≡ id = cc in
              rw (← same, lookup, text_eq_refl made) (kept, (refl, (refl, refl))))
        ]

    renewed_lem :
        (id : Text) (context : LeaseContext S V) (now : ℕ) (live : SnapshotLeases S V)
        (o : Option (Record S V))
        → lookup S V id live.records ≡ o
        → (get_live S V id now live o).0 ≡ ok context
        → HasLease id context now (get_live S V id now live o).1
    unfolding get_live
    renewed_lem id context now live none e h = cc
    renewed_lem id context now live (some r) e h =
        let deadline = now + live.lifetime in
        let kept : Record S V = record r { deadline = deadline } in
        let found : lookup S V id (renew S V id deadline live.records) ≡ some kept =
          rw (lookup-renew S V id deadline live.records, e) refl in
        let same : r.context ≡ context = cc in (kept, (found, (same, refl)))

    Started-HasLease :
        (id : Text) (context : LeaseContext S V) (now next : ℕ) (leases : SnapshotLeases S V)
        → Started id context now leases next
        → HasLease id context now leases
    unfolding retain_owned_at get_at
    Started-HasLease _ _ _ _ _ (granted id next s v owner now leases e) =
        granted_lem id next s v owner now (discard_expired_at S V now leases).1 e
    Started-HasLease _ _ _ _ _ (renewed id context now next leases e) =
        let live = (discard_expired_at S V now leases).1 in
        renewed_lem id context now live (lookup S V id live.records) refl e

    -- The standard library's formatting of an identifier shows the counter.
    abbrev pub ShowsCounter : Type 0
    ShowsCounter = (g g' n n' : ℕ) → format_id process g n ≡ format_id process g' n' → n ≡ n'

    issued_once :
        (id : Text) (g n next : ℕ)
        → ShowsCounter
        → id ≡ format_id process g n
        → n < next
        → IsFresh S V id generation format_id process next
    issued_once id g n next shows e less s m le =
        elim (Bool-cases (text_eq (format_id process (generation s) m) id)) [
          | inl t ↦
              let equal : format_id process (generation s) m ≡ format_id process g n =
                text_eq_sound (format_id process (generation s) m) id t ∙ e in
              let same : m ≡ n = shows (generation s) g m n equal in absurd (omega arith)
          | inr k ↦ k
        ]

    -- A lease that was granted or read is held until the lifetime has passed since then: after any
    -- other operations of any callers at times in between, and parts of them, unless they give it
    -- back, a read returns its snapshot and preferences. No identifier has two records, that of the
    -- lease was issued before, identifiers show the counter, and the counter does not wrap.
    pub perform_all_holds :
        (id : Text) (context : LeaseContext S V) (now next g n later : ℕ)
        (leases : SnapshotLeases S V) (os : List (Operation S V))
        → Started id context now leases next
        → IsMap S V leases.records
        → ShowsCounter
        → id ≡ format_id process g n
        → n < next
        → next + length os < 2 ^ 64
        → All (IsHarmless S V id context now leases.lifetime) os
        → later < now + leases.lifetime
        → (get_at S V id later (perform_all S V generation format_id process os (leases, next)).0).0
          ≡ ok context
    perform_all_holds id context now next g n later leases os start m shows e less small hs before =
        let (r, (found, (same, deadline))) = Started-HasLease id context now next leases start in
        let after = (perform_all S V generation format_id process os (leases, next)).0 in
        let (l, (m', (r', (found', (same', le))))) =
          perform_all-Kept S V id context now leases.lifetime generation format_id process os leases
            next hs small (issued_once id g n next shows e less)
            (refl, (m, (r, (found, (same, omega (arith, deadline)))))) in
        get_at-answer id later after m'
        ∙ answer_meanwhile later (lookup S V id after.records) r' found' (omega arith)
        ∙ ap (λ c. ok c) same'

    -- A lease that was granted or read, and that no operation reads since, is refused once the
    -- lifetime has passed since then, whatever other operations and parts of them run, at any times.
    -- No identifier has two records, that of the lease was issued before, identifiers show the
    -- counter, and the counter does not wrap.
    pub perform_all_expires :
        (id : Text) (context : LeaseContext S V) (now next g n later : ℕ)
        (leases : SnapshotLeases S V) (os : List (Operation S V))
        → Started id context now leases next
        → IsMap S V leases.records
        → ShowsCounter
        → id ≡ format_id process g n
        → n < next
        → next + length os < 2 ^ 64
        → All (IsElsewhere S V id (now + leases.lifetime)) os
        → now + leases.lifetime ≤ later
        → (get_at S V id later (perform_all S V generation format_id process os (leases, next)).0).0
          ≡ err lease_expired
    perform_all_expires id context now next g n later leases os start m shows e less small hs late =
        let (r, (found, (same, deadline))) = Started-HasLease id context now next leases start in
        let until = now + leases.lifetime in
        let after = (perform_all S V generation format_id process os (leases, next)).0 in
        let (m', d) =
          perform_all-Due S V id until generation format_id process os leases next hs small
            (issued_once id g n next shows e less) (m, due r found deadline) in
        get_at-answer id later after m'
        ∙ answer_due later (lookup S V id after.records) (λ r' e'. omega (arith, d r' e'))
      where
        due :
            (r : Record S V)
            → lookup S V id leases.records ≡ some r
            → r.deadline ≡ now + leases.lifetime
            → (r' : Record S V) → lookup S V id leases.records ≡ some r'
            → r'.deadline ≤ now + leases.lifetime
        due r found deadline r' found' =
            let same : r ≡ r' = cc in
            let equal : r.deadline ≡ r'.deadline = ap (λ (q : Record S V). q.deadline) same in
            omega arith
