-- ===== src/SnapshotLeases/Steps.antt =====
-- Sequences of operations on the leases. `retain_owned_at` and `get_at` of
-- core/src/snapshot_leases.rs take the lock twice: for the discarding, and for what follows it. Both
-- are operations as a whole, and what follows the discarding is one too, so that a sequence may have
-- the operations of other threads in between.
use apfsearch.Prelude.{ℕ, List, [], ◌∷◌}
use apfsearch.Text.{Text}
use apfsearch.SnapshotLeases.{
  LeaseOwner, SnapshotLeases, lookup, discard_expired_at, get_at, get_live, release,
  retain_owned_at, retain_live,
}

module _ (S V : Type 0) where
  -- The operations that callers perform, with the time at which each runs. The last two are what
  -- follows the discarding in the first two.
  pub data Operation : Type 0 where
    retain : S → V → LeaseOwner → ℕ → Operation
    get : Text → ℕ → Operation
    give_back : Text → Operation
    discard : ℕ → Operation
    enter : S → V → LeaseOwner → ℕ → Operation
    read : Text → ℕ → Operation

  module _ (generation : S → ℕ) (format_id : ℕ → ℕ → ℕ → Text) (process : ℕ) where
    -- The leases and the counter after an operation.
    unfoldable pub perform : Operation → SnapshotLeases S V × ℕ → SnapshotLeases S V × ℕ
    perform (retain s v owner now) (leases, next) =
        let done = retain_owned_at S V generation format_id process next s v owner now leases in
        (done.1, done.2)
    perform (get id now) (leases, next) = ((get_at S V id now leases).1, next)
    perform (give_back id) (leases, next) = ((release S V id leases).1, next)
    perform (discard now) (leases, next) = ((discard_expired_at S V now leases).1, next)
    perform (enter s v owner now) (leases, next) =
        let done = retain_live S V generation format_id process next s v owner now leases in
        (done.1, done.2)
    perform (read id now) (leases, next) =
        ((get_live S V id now leases (lookup S V id leases.records)).1, next)

    unfoldable pub perform_all : List Operation → SnapshotLeases S V × ℕ → SnapshotLeases S V × ℕ
    unfolding perform
    perform_all [] state = state
    perform_all (o ∷ operations) state = perform_all operations (perform o state)
