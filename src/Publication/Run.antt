-- ===== src/Publication/Run.antt =====
-- `_publish_snapshot` (mixapi/publication.py) takes only steps of the history of the store of
-- snapshots.
use mixapi.Shared.{ℕ, List, ok, err, Result}
use mixapi.Redis.{Redis, Conn}
use mixapi.Runtime.Snapshots.{
  Site, SnapshotKey, Value, Codec, write_pending, mark_ready, activate, retain_versions, ◌>>◌,
  SnapshotError,
}
use mixapi.Runtime.Snapshots.History.{Reach}
use mixapi.Runtime.Snapshots.Goes.{Goes, Runs, IsAny, >>=-Runs}
use mixapi.Runtime.Snapshots.Methods.{
  write_pending-Runs, mark_ready-Runs, activate-Runs, retain_versions-Goes, IsAtLeast,
}
use mixapi.Publication.{publish_snapshot, publish_steps, translate}

module _ (R : Redis SnapshotKey Value) (C : Codec) where
  publish_steps-Runs :
      (scanned : List ℕ) (count ttl_seconds : ℕ) (x : C.Snapshot)
      → Runs R C (IsAny R C) (publish_steps R C scanned count ttl_seconds x)
  unfolding publish_steps
  publish_steps-Runs scanned count ttl_seconds x =
      let v = C.version x in
      >>=-Runs R C (IsAtLeast R C v) (IsAny R C)
        (write_pending R C x >> mark_ready R C v (C.checksum x) >> activate R C v (C.checksum x))
        (λ a. retain_versions R C scanned v count ttl_seconds)
        (>>=-Runs R C (IsAny R C) (IsAtLeast R C v)
          (write_pending R C x >> mark_ready R C v (C.checksum x))
          (λ a. activate R C v (C.checksum x))
          (>>=-Runs R C (IsAny R C) (IsAny R C) (write_pending R C x)
            (λ a. mark_ready R C v (C.checksum x)) (write_pending-Runs R C x)
            (λ a c p. mark_ready-Runs R C v (C.checksum x) c))
          (λ a c p. activate-Runs R C v (C.checksum x) c))
        (λ a c p. retain_versions-Goes R C scanned v count ttl_seconds c p)

  translate-Reach :
      (w : Site R C) (r : Result SnapshotError (Unit {0}) × Conn (Site R C))
      → Goes R C w (IsAny R C) r
      → Reach R C w (translate r).1.store
  translate-Reach w (ok u, c) (reach, p) = reach
  translate-Reach w (err e, c) (reach, p) = reach

  -- Whether the server answers or not, and whether the call returns or raises: what the publication of a
  -- snapshot does to the values and to the times to live of the store is a run of the step relation.
  pub publish_snapshot-Reach :
      (scanned : List ℕ) (count ttl_seconds : ℕ) (x : C.Snapshot) (c : Conn (Site R C))
      → Reach R C c.store (publish_snapshot R C scanned count ttl_seconds x c).1.store
  unfolding publish_snapshot
  publish_snapshot-Reach scanned count ttl_seconds x c =
      translate-Reach c.store (publish_steps R C scanned count ttl_seconds x c)
        (publish_steps-Runs scanned count ttl_seconds x c)
