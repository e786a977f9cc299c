-- ===== src/SnapshotLeases.antt =====
-- core/src/snapshot_leases.rs: read leases that keep a snapshot for an operation of several pages.
-- The records stand under one lock. `retain_owned_at` and `get_at` take it twice, first for the
-- discarding: as functions they do both, and what follows the discarding is a function of its own. A snapshot and the
-- preferences are of any type. The standard library's formatting of an identifier is a parameter.
pub mod Records
mod Others
pub mod Kept
pub mod Due
pub mod Steps
pub mod Bounded
pub mod Held
mod Examples
use apfsearch.Prelude.{
  ℕ, suc, ◌+◌, ◌%◌, ◌^◌, Bool, true, false, Option, none, some, List, [], ◌∷◌, ltb, leb,
  if◌then◌else◌,
}
use apfsearch.Result.{Result, ok, err, too_many_leases, lease_expired}
use apfsearch.Text.{Text, text_eq}

pub data LeaseOwner : Type 0 where
  window operation : LeaseOwner

abbrev pub same_owner : LeaseOwner → LeaseOwner → Bool
same_owner window window = true
same_owner operation operation = true
same_owner _ _ = false

module _ (Snapshot Value : Type 0) where
  pub record LeaseContext : Type 0 where
    pub snapshot : Snapshot
    pub preferences : Value

  -- `deadline` in the units of the clock.
  pub record Record : Type 0 where
    pub context : LeaseContext
    pub deadline : ℕ
    pub owner : LeaseOwner

  -- `HashMap<String, Record>`
  abbrev pub Records : Type 0
  Records = List (Text × Record)

  pub record SnapshotLeases : Type 0 where
    pub records : Records
    pub lifetime : ℕ
    pub capacity : ℕ

  pub lookup : Text → Records → Option Record
  lookup id [] = none
  lookup id ((key, r) ∷ records) =
      let rest = lookup id records in if text_eq key id then some r else rest

  pub remove : Text → Records → Records
  remove id [] = []
  remove id ((key, r) ∷ records) =
      let rest = remove id records in if text_eq key id then rest else (key, r) ∷ rest

  -- The records whose deadline is still to come.
  pub unexpired : ℕ → Records → Records
  unexpired now [] = []
  unexpired now ((key, r) ∷ records) =
      let rest = unexpired now records in if leb r.deadline now then rest else (key, r) ∷ rest

  pub count_expired : ℕ → Records → ℕ
  count_expired now [] = 0
  count_expired now ((key, r) ∷ records) =
      let rest = count_expired now records in if leb r.deadline now then suc rest else rest

  -- `records.values().filter(|record| record.owner == owner).count()`
  pub count_owner : LeaseOwner → Records → ℕ
  count_owner owner [] = 0
  count_owner owner ((key, r) ∷ records) =
      let rest = count_owner owner records in if same_owner r.owner owner then suc rest else rest

  pub new : ℕ → ℕ → SnapshotLeases
  new lifetime capacity = record { records = []; lifetime = lifetime; capacity = capacity }

  pub discard_expired_at : ℕ → SnapshotLeases → ℕ × SnapshotLeases
  discard_expired_at now leases =
      (count_expired now leases.records, record leases { records = unexpired now leases.records })

  abbrev pub capacity_of : SnapshotLeases → LeaseOwner → ℕ
  capacity_of leases window = 128
  capacity_of leases operation = leases.capacity

  abbrev insert : Text → Record → Records → Records
  insert id r records = (id, r) ∷ remove id records

  -- `record.deadline = now + self.lifetime` for the record of the identifier
  pub renew : Text → ℕ → Records → Records
  renew id deadline [] = []
  renew id deadline ((key, r) ∷ records) =
      let rest = renew id deadline records in
      if text_eq key id then (key, record r { deadline = deadline }) ∷ records else (key, r) ∷ rest

  pub get_live : Text → ℕ → SnapshotLeases → Option Record → Result LeaseContext × SnapshotLeases
  get_live id now leases none = (err lease_expired, leases)
  get_live id now leases (some r) =
      (ok r.context, record leases { records = renew id (now + leases.lifetime) leases.records })

  pub get_at : Text → ℕ → SnapshotLeases → Result LeaseContext × SnapshotLeases
  unfolding get_live discard_expired_at
  get_at id now leases =
      let live = (discard_expired_at now leases).1 in get_live id now live (lookup id live.records)

  pub release : Text → SnapshotLeases → Bool × SnapshotLeases
  release id leases = (
    elim (lookup id leases.records) [ none ↦ false | some r ↦ true ],
    record leases { records = remove id leases.records },
  )

  module _ (generation : Snapshot → ℕ) (format_id : ℕ → ℕ → ℕ → Text) where
    -- `next` is the static counter `NEXT_LEASE`, which comes back raised.
    pub retain_live :
        ℕ
        → ℕ
        → Snapshot
        → Value
        → LeaseOwner
        → ℕ
        → SnapshotLeases
        → Result Text × SnapshotLeases × ℕ
    retain_live process next snapshot preferences owner now leases =
        let id = format_id process (generation snapshot) next in
        let kept : Record = record {
          context = record { snapshot = snapshot; preferences = preferences };
          deadline = now + leases.lifetime;
          owner = owner;
        } in
        if leb (capacity_of leases owner) (count_owner owner leases.records)
        then (err too_many_leases, leases, next)
        else (ok id, record leases { records = insert id kept leases.records }, (next + 1) % 2 ^ 64)

    pub retain_owned_at :
        ℕ
        → ℕ
        → Snapshot
        → Value
        → LeaseOwner
        → ℕ
        → SnapshotLeases
        → Result Text × SnapshotLeases × ℕ
    unfolding retain_live discard_expired_at
    retain_owned_at process next snapshot preferences owner now leases =
        retain_live process next snapshot preferences owner now (discard_expired_at now leases).1
