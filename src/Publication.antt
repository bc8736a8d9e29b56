-- ===== src/Publication.antt =====
-- `_publish_snapshot` of mixapi/publication.py: a snapshot is written, marked, activated, and the older
-- versions are retained or dropped.
pub mod Serves
pub mod Run
pub mod Rebuild
pub mod Validation
use mixapi.Shared.{ℕ, List, Result, ok, err}
use mixapi.Redis.{Redis, Conn}
use mixapi.Runtime.Snapshots.{
  Site, SnapshotKey, Value, Codec, SnapshotError, snapshot_conflict, snapshot_not_ready,
  invalid_argument, publication_error, failure, Attempt, ◌>>=◌, ◌>>◌, write_pending, mark_ready,
  activate, retain_versions,
}

-- `except SnapshotConflict`
abbrev pub as_publication_error : SnapshotError → SnapshotError
as_publication_error snapshot_conflict = publication_error "snapshot_conflict"
as_publication_error snapshot_not_ready = snapshot_not_ready
as_publication_error invalid_argument = invalid_argument
as_publication_error (publication_error code) = publication_error code
as_publication_error (failure e) = failure e

abbrev pub translate :
    {S : Type 0}
    → Result SnapshotError (Unit {0}) × Conn S
    → Result SnapshotError (Unit {0}) × Conn S
translate (ok u, c) = (ok u, c)
translate (err e, c) = (err (as_publication_error e), c)

module _ (R : Redis SnapshotKey Value) (C : Codec) where
  -- The body of the `try`.
  unfoldable pub publish_steps : List ℕ → ℕ → ℕ → C.Snapshot → Attempt (Site R C) (Unit {0})
  unfolding write_pending mark_ready activate retain_versions
  publish_steps scanned count ttl_seconds x =
      write_pending R C x
      >> mark_ready R C (C.version x) (C.checksum x)
      >> activate R C (C.version x) (C.checksum x)
      >> retain_versions R C scanned (C.version x) count ttl_seconds

  -- `scanned` is what the scan of the retention finds.
  unfoldable pub publish_snapshot : List ℕ → ℕ → ℕ → C.Snapshot → Attempt (Site R C) (Unit {0})
  unfolding publish_steps
  publish_snapshot scanned count ttl_seconds x c =
      translate (publish_steps scanned count ttl_seconds x c)
