-- ===== src/Runtime/Snapshots.antt =====
-- mixapi/runtime/snapshots.py: the published versions of the routing configuration, and the one that
-- is active. What a snapshot holds and its JSON form (mixapi/snapshots.py) are parameters. How long a
-- lock is held is left out; of the time to live of a version, which keys have one.
pub mod History
pub mod Served
pub mod Active
pub mod Upward
pub mod Persist
pub mod Retention
pub mod Goes
pub mod Methods
use mixapi.Shared.{
  ℕ, zero, suc, Bool, true, false, Option, none, some, List, [], ◌∷◌, any, map, String, ◌==◌, ltb,
  leb, Result, ok, err, if◌then◌else◌, is_some, nat_eq, ◌||◌,
}
use mixapi.Errors.{MixApiError, control_plane_unavailable, configuration_unavailable}
use mixapi.Redis.{Redis, Conn}

-- A value: the decimal form of a version, or another text.
pub data Value : Type 0 where
  number : ℕ → Value
  text : String → Value

-- `_active_key`, `_payload_key`, `_manifest_key`, and the key of the lock.
pub data SnapshotKey : Type 0 where
  active rebuild_lock : SnapshotKey
  payload manifest : ℕ → SnapshotKey

-- `SnapshotConflict`, `SnapshotNotReady`, `ValueError`, `PublicationError` by its code, and the public
-- errors.
pub data SnapshotError : Type 0 where
  snapshot_conflict snapshot_not_ready invalid_argument : SnapshotError
  publication_error : String → SnapshotError
  failure : MixApiError → SnapshotError

pub record Codec : Type 1 where
  pub Snapshot : Type 0
  pub version : Snapshot → ℕ
  pub checksum : Snapshot → String
  pub to_json : Snapshot → String
  pub from_json : String → Option Snapshot

-- The answers of the scripts, by their codes: -1, -2, -3, 0 and 1 of `_MARK_READY`; -1, -2, -3, -4, 0
-- and 1 of `_ACTIVATE`.
pub data Mark : Type 0 where
  no_payload other_payload other_manifest already_marked marked : Mark

pub data Switch : Type 0 where
  not_written not_marked other_checksum bad_pointer superseded switched : Switch

-- What retention does with a version: `PERSIST`, `EXPIRE`, or `DEL` of both its keys.
pub data Action : Type 0 where
  persist expire discard : ℕ → Action

-- The versions up to the active one.
unfoldable pub up_to : ℕ → List ℕ → List ℕ
up_to a [] = []
up_to a (v ∷ vs) = let rest = up_to a vs in if leb v a then v ∷ rest else rest

-- `sorted(…, reverse=True)`
unfoldable pub insert_down : ℕ → List ℕ → List ℕ
insert_down v [] = v ∷ []
insert_down v (w ∷ ws) = if ltb v w then w ∷ insert_down v ws else v ∷ w ∷ ws

unfoldable pub sort_down : List ℕ → List ℕ
unfolding insert_down
sort_down [] = []
sort_down (v ∷ vs) = insert_down v (sort_down vs)

-- `published[:count]`
unfoldable pub take : ℕ → List ℕ → List ℕ
take zero vs = []
take (suc n) [] = []
take (suc n) (v ∷ vs) = v ∷ take n vs

abbrev pub action_of : ℕ → List ℕ → ℕ → Action
action_of a retained v =
    if nat_eq v a then persist v else if any (λ w. nat_eq w v) retained then expire v else discard v

-- The loop of `retain_versions`, over the versions that the scan has found.
unfoldable pub retention : ℕ → ℕ → List ℕ → List Action
unfolding up_to sort_down take
retention a count scanned =
    let published = sort_down (up_to a scanned) in
    map (action_of a (take count published)) published

abbrev pub Attempt : Type 0 → Type 0 → Type 0
Attempt S A = Conn S → Result SnapshotError A × Conn S

module _ {S : Type 0} where
  abbrev pub give : {A : Type 0} → A → Attempt S A
  give a c = (ok a, c)

  abbrev pub fail : {A : Type 0} → SnapshotError → Attempt S A
  fail e c = (err e, c)

  infixl 5 ◌>>=◌ ◌>>◌
  abbrev pub ◌>>=◌ : {A B : Type 0} → Attempt S A → (A → Attempt S B) → Attempt S B
  ◌>>=◌ m f c = let (r, c') = m c in elim r [ ok a ↦ f a c' | err e ↦ (err e, c') ]

  abbrev pub ◌>>◌ : {A B : Type 0} → Attempt S A → Attempt S B → Attempt S B
  m >> k = m >>= λ _. k

-- The commands `EXPIRE` and `PERSIST` of a version, on the versions that have a time to live.
unfoldable pub remove : ℕ → List ℕ → List ℕ
remove v [] = []
remove v (w ∷ ws) = let rest = remove v ws in if nat_eq v w then rest else w ∷ rest

module _ (R : Redis SnapshotKey Value) (C : Codec) where
  -- The values, and the versions whose two keys may have a time to live: those that have been given
  -- one, and whose time has not been taken away since.
  pub record Site : Type 0 where
    pub store : R.State
    pub aging : List ℕ

  -- A command or a script on the values, on a server that may be down.
  abbrev pub ask : {A : Type 0} → (R.State → A × R.State) → Attempt Site A
  ask m c =
      if c.reachable
      then (let (a, s) = m c.store.store in
          (ok a, record c { store = record c.store { store = s } }))
      else (err (failure control_plane_unavailable), c)

  abbrev pub is_text : String → Option Value → Bool
  is_text t (some (text u)) = u == t
  is_text t _ = false

  -- `SET … NX`
  unfoldable pub set_nx : SnapshotKey → String → R.State → Bool × R.State
  set_nx k t s = if is_some (R.get s k) then (false, s) else (true, R.set s k (text t))

  -- `_MARK_READY`
  unfoldable pub mark_ready_script : ℕ → String → String → R.State → Mark × R.State
  mark_ready_script v t checksum s = elim (R.get s (payload v)) [
    | none ↦ (no_payload, s)
    | some found ↦
        if is_text t (some found)
        then (elim (R.get s (manifest v)) [
          | none ↦ (marked, R.set s (manifest v) (text checksum))
          | some m ↦ (if is_text checksum (some m) then already_marked else other_manifest, s)
        ])
        else (other_payload, s)
  ]

  -- `active and tonumber(active) > tonumber(ARGV[1])`, for a pointer that is a number, and what follows.
  unfoldable pub move_pointer : ℕ → Option Value → R.State → Switch × R.State
  move_pointer v none s = (switched, R.set s active (number v))
  move_pointer v (some (text t)) s = (bad_pointer, s)
  move_pointer v (some (number a)) s =
      if ltb v a then (superseded, s) else (switched, R.set s active (number v))

  -- `_ACTIVATE`
  unfoldable pub activate_script : ℕ → String → R.State → Switch × R.State
  unfolding move_pointer
  activate_script v checksum s = elim (R.get s (payload v)) [
    | none ↦ (not_written, s)
    | some found ↦ elim (R.get s (manifest v)) [
      | none ↦ (not_marked, s)
      | some m ↦
          if is_text checksum (some m)
          then move_pointer v (R.get s active) s
          else (other_checksum, s)
    ]
  ]

  -- `_RELEASE_LOCK`
  unfoldable pub release_lock_script : String → R.State → Bool × R.State
  release_lock_script owner s =
      if is_text owner (R.get s rebuild_lock) then (true, R.delete s rebuild_lock) else (false, s)

  unfoldable pub write_pending : C.Snapshot → Attempt Site Bool
  unfolding set_nx
  write_pending x = do
    created ← ask (set_nx (payload (C.version x)) (C.to_json x))
    if created then give true else (do
      existing ← ask (λ s. (R.get s (payload (C.version x)), s))
      if is_text (C.to_json x) existing then give false else fail snapshot_conflict)

  -- The snapshot in a text that is at its own version.
  unfoldable pub read_snapshot : ℕ → Value → Attempt Site C.Snapshot
  read_snapshot v (number n) = fail (failure configuration_unavailable)
  read_snapshot v (text t) = elim (C.from_json t) [
    | none ↦ fail (failure configuration_unavailable)
    | some x ↦ if nat_eq (C.version x) v then give x else fail (failure configuration_unavailable)
  ]

  unfoldable pub load : ℕ → Bool → Attempt Site C.Snapshot
  unfolding read_snapshot
  load v missing_is_not_ready = do
    raw ← ask (λ s. (R.get s (payload v), s))
    elim raw [
      | none ↦
          fail
            (if missing_is_not_ready then snapshot_not_ready else failure configuration_unavailable)
      | some t ↦ read_snapshot v t
    ]

  -- What a code of a script comes to.
  abbrev pub mark_answer : Mark → Attempt Site Bool
  mark_answer no_payload = fail snapshot_not_ready
  mark_answer other_payload = fail snapshot_conflict
  mark_answer other_manifest = fail snapshot_conflict
  mark_answer already_marked = give false
  mark_answer marked = give true

  abbrev pub switch_answer : Switch → Attempt Site Bool
  switch_answer not_written = fail snapshot_not_ready
  switch_answer not_marked = fail snapshot_not_ready
  switch_answer other_checksum = fail snapshot_conflict
  switch_answer bad_pointer = fail (failure configuration_unavailable)
  switch_answer superseded = give false
  switch_answer switched = give true

  unfoldable pub mark_ready : ℕ → String → Attempt Site Bool
  unfolding load mark_ready_script
  mark_ready v checksum = do
    x ← load v true
    if C.checksum x == checksum
        then ask (mark_ready_script v (C.to_json x) checksum) >>= mark_answer
        else fail snapshot_conflict

  unfoldable pub activate : ℕ → String → Attempt Site Bool
  unfolding activate_script
  activate v checksum = ask (activate_script v checksum) >>= switch_answer

  -- `int(raw)`, for a version that is positive.
  abbrev pub pointer : Option Value → Attempt Site (Option ℕ)
  pointer none = give none
  pointer (some (text t)) = fail (failure configuration_unavailable)
  pointer (some (number zero)) = fail (failure configuration_unavailable)
  pointer (some (number (suc n))) = give (some (suc n))

  unfoldable pub active_version : Attempt Site (Option ℕ)
  active_version = ask (λ s. (R.get s active, s)) >>= pointer

  unfoldable pub acquire_rebuild_lock : String → Attempt Site Bool
  unfolding set_nx
  acquire_rebuild_lock owner = ask (set_nx rebuild_lock owner)

  unfoldable pub release_rebuild_lock : String → Attempt Site Bool
  unfolding release_lock_script
  release_rebuild_lock owner = ask (release_lock_script owner)

  -- `PERSIST`, `EXPIRE` and `DEL` of both keys of a version.
  unfoldable pub carry_out : List Action → Site → Site
  unfolding remove
  carry_out [] w = w
  carry_out (persist v ∷ as') w = carry_out as' (record w { aging = remove v w.aging })
  carry_out (expire v ∷ as') w = carry_out as' (record w { aging = v ∷ w.aging })
  carry_out (discard v ∷ as') w =
      carry_out as' (record w { store = R.delete (R.delete w.store (payload v)) (manifest v) })

  -- `scanned` is what `SCAN` finds.
  unfoldable pub retain_versions : List ℕ → ℕ → ℕ → ℕ → Attempt Site (Unit {0})
  unfolding retention carry_out
  retain_versions scanned a count ttl_seconds c =
      if ltb count 1 || ltb ttl_seconds 1
      then (err invalid_argument, c)
      else if c.reachable
      then (ok tt, record c { store = carry_out (retention a count scanned) c.store })
      else (err (failure control_plane_unavailable), c)
