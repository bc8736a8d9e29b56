-- ===== src/Runtime/Snapshots/History.antt =====
-- What may happen to the store of snapshots: publishers, rebuilds and retention, in any order, one
-- atomic command or script at a time (mixapi/runtime/snapshots.py, and the order of the calls in
-- mixapi/publication.py).
use mixapi.Shared.{ℕ, ◌<◌, ◌≡◌, ◌⊎◌, some, List, [], ◌∷◌, String}
use mixapi.Redis.{Redis}
use mixapi.Runtime.Snapshots.{
  Site, remove, SnapshotKey, active, payload, manifest, Value, number, Codec, set_nx,
  mark_ready_script, activate_script,
}

module _ (R : Redis SnapshotKey Value) (C : Codec) where
  -- The version is older than the active one.
  pub record IsOld (v : ℕ) (s : R.State) : Type 0 where
    pub newer : ℕ
    pub active_is : R.get s active ≡ some (number newer)
    pub lower : v < newer

  -- Some members of a list.
  abbrev pub IsIn : ℕ → List ℕ → Type 0
  IsIn v [] = ⊥
  IsIn v (w ∷ ws) = (v ≡ w) ⊎ IsIn v ws

  pub data Step (w : Site R C) : Site R C → Type 0 where
    -- `write_pending`
    write :
        (x : C.Snapshot)
        → Step w (record w { store = (set_nx R C (payload (C.version x)) (C.to_json x) w.store).1 })
    -- `mark_ready`, for a snapshot that it has loaded.
    mark :
        (x : C.Snapshot)
        → Step w (record w {
          store = (mark_ready_script R C (C.version x) (C.to_json x) (C.checksum x) w.store).1;
        })
    -- `activate`, with any version and checksum.
    switch :
        (v : ℕ) (checksum : String)
        → Step w (record w { store = (activate_script R C v checksum w.store).1 })
    -- `retain_versions`, after an activation: the versions that it ages or discards are older than the one
    -- that was activated, and so than the active one.
    keep : (v : ℕ) → Step w (record w { aging = remove v w.aging })
    age : (v : ℕ) → IsOld v w.store → Step w (record w { aging = v ∷ w.aging })
    discard :
        (v : ℕ)
        → IsOld v w.store
        → Step w (record w { store = R.delete (R.delete w.store (payload v)) (manifest v) })
    -- The time of a key is over.
    expire_payload :
        (v : ℕ) → IsIn v w.aging → Step w (record w { store = R.delete w.store (payload v) })
    expire_manifest :
        (v : ℕ) → IsIn v w.aging → Step w (record w { store = R.delete w.store (manifest v) })

  pub data Reach (w : Site R C) : Site R C → Type 0 where
    here : Reach w w
    next : {w' w'' : Site R C} → Reach w w' → Step w' w'' → Reach w w''
