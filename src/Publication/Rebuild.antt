-- ===== src/Publication/Rebuild.antt =====
-- `_rebuild_locked` of mixapi/publication.py: the store of snapshots is brought to the latest version
-- that the database has as published. The lock around it, and how the database makes a snapshot, are
-- left out: the latest version and the snapshot that is made are arguments.
use mixapi.Shared.{
  ℕ, List, Bool, true, false, Option, none, some, Result, ok, err, ◌==◌, if◌then◌else◌, nat_eq,
}
use mixapi.Redis.{Redis, Conn}
use mixapi.Runtime.Snapshots.{
  Site, SnapshotKey, Value, Codec, SnapshotError, failure, snapshot_conflict, snapshot_not_ready,
  invalid_argument, publication_error, Attempt, ◌>>=◌, ◌>>◌, give, fail, mark_ready, activate,
  active_version, load,
}
use mixapi.Runtime.Snapshots.Goes.{Goes}
use mixapi.Publication.{publish_snapshot}

module _ (R : Redis SnapshotKey Value) (C : Codec) where
  -- `active_version == version.version`
  abbrev pub is_current : ℕ → Option ℕ → Bool
  is_current v none = false
  is_current v (some a) = nat_eq a v

  -- The snapshot of the latest version is in the store.
  unfoldable pub reactivate : ℕ → Option ℕ → C.Snapshot → Attempt (Site R C) Bool
  reactivate v a x =
      if is_current v a
      then give true
      else (mark_ready R C (C.version x) (C.checksum x)
          >> activate R C (C.version x) (C.checksum x)
          >> give true)

  module _ (scanned : List ℕ) (count ttl_seconds : ℕ) where
    -- The snapshot is made from the database, if it can be.
    unfoldable pub republish : Result SnapshotError C.Snapshot → Attempt (Site R C) Bool
    unfolding publish_snapshot
    republish (ok x) = publish_snapshot R C scanned count ttl_seconds x >> give true
    republish (err e) = fail e

    -- `except MixAPIError` and `else`
    unfoldable pub after_load :
        Result SnapshotError C.Snapshot
        → ℕ
        → Option ℕ
        → Result SnapshotError C.Snapshot × Conn (Site R C)
        → Result SnapshotError Bool × Conn (Site R C)
    unfolding reactivate republish
    after_load made v a (ok x, c) = reactivate v a x c
    after_load made v a (err (failure e), c) =
        if e.code == "configuration_unavailable" then republish made c else (err (failure e), c)
    after_load made v a (err snapshot_conflict, c) = (err snapshot_conflict, c)
    after_load made v a (err snapshot_not_ready, c) = (err snapshot_not_ready, c)
    after_load made v a (err invalid_argument, c) = (err invalid_argument, c)
    after_load made v a (err (publication_error code), c) = (err (publication_error code), c)

    unfoldable pub rebuild_locked :
        Result SnapshotError C.Snapshot → Option ℕ → Attempt (Site R C) Bool
    unfolding after_load active_version load
    rebuild_locked made none = give false
    rebuild_locked made (some v) =
        active_version R C >>= λ a c. after_load made v a (load R C v false c)
