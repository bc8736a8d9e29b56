-- ===== src/Runtime/Snapshots/Methods.antt =====
-- Every method of the store of snapshots that a publication calls (mixapi/runtime/snapshots.py) is a
-- run of the history.
use mixapi.Shared.{
  eq_iff, ℕ, ◌≤◌, ◌≡◌, refl, sym, none, some, List, arith, Bool, true, false, String, Bool-cases,
  inl, inr, Option, Option-cases, ◌==◌, ltb, ◌||◌, if◌then◌else◌, nat_eq,
}
use mixapi.Errors.{configuration_unavailable}
use mixapi.Redis.{Redis, Conn}
use mixapi.Runtime.Snapshots.{
  Site, SnapshotKey, active, payload, manifest, Value, number, text, Codec, set_nx,
  mark_ready_script, activate_script, move_pointer, write_pending, mark_ready, activate,
  retain_versions, load, ◌>>=◌, read_snapshot, Attempt, ask, fail, give, Switch, not_written,
  not_marked, other_checksum, bad_pointer, superseded, switched, Mark, no_payload, other_payload,
  other_manifest, already_marked, marked, failure, snapshot_conflict, snapshot_not_ready,
  mark_answer, switch_answer, is_text,
}
use mixapi.Runtime.Snapshots.History.{write, mark, switch, Reach, here, next}
use mixapi.Runtime.Snapshots.Retention.{retention-Reach}
use mixapi.Runtime.Snapshots.Goes.{Goes, Runs, IsAny, >>=-Runs, ask-Runs, read-Runs}

module _ (R : Redis SnapshotKey Value) (C : Codec) where
  -- What `write_pending` does with the key that is there already.
  abbrev compare_existing : C.Snapshot → Option Value → Attempt (Site R C) Bool
  compare_existing x existing =
      if is_text R C (C.to_json x) existing then give false else fail snapshot_conflict

  compare_existing-Runs :
      (x : C.Snapshot) (existing : Option Value)
      → Runs R C (IsAny R C) (compare_existing x existing)
  compare_existing-Runs x existing c = elim (Bool-cases (is_text R C (C.to_json x) existing)) [
    | inl same ↦ rw same (here, tt)
    | inr other ↦ rw other (here, tt)
  ]

  abbrev unless_created : C.Snapshot → Bool → Attempt (Site R C) Bool
  unless_created x created =
      if created
      then give true
      else (ask R C (λ s. (R.get s (payload (C.version x)), s)) >>= compare_existing x)

  unless_created-Runs :
      (x : C.Snapshot) (created : Bool) → Runs R C (IsAny R C) (unless_created x created)
  unless_created-Runs x true c = (here, tt)
  unless_created-Runs x false c =
      >>=-Runs R C (IsAny R C) (IsAny R C) (ask R C (λ s. (R.get s (payload (C.version x)), s)))
        (compare_existing x) (read-Runs R C (λ s. R.get s (payload (C.version x))))
        (λ existing c p. compare_existing-Runs x existing c) c

  pub write_pending-Runs : (x : C.Snapshot) → Runs R C (IsAny R C) (write_pending R C x)
  unfolding write_pending
  write_pending-Runs x =
      >>=-Runs R C (IsAny R C) (IsAny R C)
        (ask R C (set_nx R C (payload (C.version x)) (C.to_json x))) (unless_created x)
        (ask-Runs R C (IsAny R C) (set_nx R C (payload (C.version x)) (C.to_json x))
          (λ w. (next here (write x), tt)))
        (λ created c p. unless_created-Runs x created c)

  -- A snapshot that is loaded is at the version that was asked for.
  abbrev pub IsAtVersion : ℕ → C.Snapshot → R.State → Type 0
  IsAtVersion v x s = C.version x ≡ v

  read_snapshot-Runs : (v : ℕ) (o : Value) → Runs R C (IsAtVersion v) (read_snapshot R C v o)
  unfolding read_snapshot
  read_snapshot-Runs v (number n) c = (here, tt)
  read_snapshot-Runs v (text t) c = elim (Option-cases (C.from_json t)) [
    | inl broken ↦ rw (read_snapshot, broken) (here, tt)
    | inr (x, parsed) ↦ elim (Bool-cases (nat_eq (C.version x) v)) [
      | inl same ↦ rw (read_snapshot, parsed, same) (here, ground (arith, same))
      | inr other ↦ rw (read_snapshot, parsed, other) (here, tt)
    ]
  ]

  abbrev read_payload : ℕ → Bool → Option Value → Attempt (Site R C) C.Snapshot
  read_payload v missing none =
      fail (if missing then snapshot_not_ready else failure configuration_unavailable)
  read_payload v missing (some t) = read_snapshot R C v t

  read_payload-Runs :
      (v : ℕ) (missing : Bool) (o : Option Value)
      → Runs R C (IsAtVersion v) (read_payload v missing o)
  read_payload-Runs v missing none c = (here, tt)
  read_payload-Runs v missing (some t) c = read_snapshot-Runs v t c

  pub load-Runs : (v : ℕ) (missing : Bool) → Runs R C (IsAtVersion v) (load R C v missing)
  unfolding load
  load-Runs v missing =
      >>=-Runs R C (IsAny R C) (IsAtVersion v) (ask R C (λ s. (R.get s (payload v), s)))
        (read_payload v missing) (read-Runs R C (λ s. R.get s (payload v)))
        (λ o c p. read_payload-Runs v missing o c)

  mark-Reach :
      (v : ℕ) (checksum : String) (x : C.Snapshot) (w : Site R C)
      → C.version x ≡ v
      → C.checksum x ≡ checksum
      → Reach R C w
          (record w { store = (mark_ready_script R C v (C.to_json x) checksum w.store).1 })
  mark-Reach v checksum x w at_v with_checksum =
      rw (sym at_v, sym with_checksum) (next here (mark x))

  abbrev mark_loaded : ℕ → String → C.Snapshot → Attempt (Site R C) Bool
  mark_loaded v checksum x =
      if C.checksum x == checksum
      then (ask R C (mark_ready_script R C v (C.to_json x) checksum) >>= mark_answer R C)
      else fail snapshot_conflict

  mark_answer-Runs : (m : Mark) → Runs R C (IsAny R C) (mark_answer R C m)
  mark_answer-Runs no_payload c = (here, tt)
  mark_answer-Runs other_payload c = (here, tt)
  mark_answer-Runs other_manifest c = (here, tt)
  mark_answer-Runs already_marked c = (here, tt)
  mark_answer-Runs marked c = (here, tt)

  mark_loaded-Goes :
      (v : ℕ) (checksum : String) (x : C.Snapshot) (c : Conn (Site R C))
      → C.version x ≡ v
      → Goes R C c.store (IsAny R C) (mark_loaded v checksum x c)
  mark_loaded-Goes v checksum x c at_v = elim (Bool-cases (C.checksum x == checksum)) [
    | inl same ↦
        let script : R.State → Mark × R.State = mark_ready_script R C v (C.to_json x) checksum in
        rw same (
          >>=-Runs R C (IsAny R C) (IsAny R C) (ask R C script) (mark_answer R C)
            (ask-Runs R C (IsAny R C) script
              (λ w. (mark-Reach v checksum x w at_v ((eq_iff _ _).0 same), tt)))
            (λ m c p. mark_answer-Runs m c) c)
    | inr other ↦ rw other (here, tt)
  ]

  pub mark_ready-Runs :
      (v : ℕ) (checksum : String) → Runs R C (IsAny R C) (mark_ready R C v checksum)
  unfolding mark_ready
  mark_ready-Runs v checksum =
      >>=-Runs R C (IsAtVersion v) (IsAny R C) (load R C v true) (mark_loaded v checksum)
        (load-Runs v true) (mark_loaded-Goes v checksum)

  -- The pointer is a number, and at least `v`.
  abbrev pub IsAtLeast : {A : Type 0} → ℕ → A → R.State → Type 0
  IsAtLeast v a s = (b : ℕ) × (v ≤ b) × (R.get s active ≡ some (number b))

  -- What the codes of `_ACTIVATE` say of the pointer.
  abbrev IsPointed : ℕ → Switch → R.State → Type 0
  IsPointed v not_written s = Unit {0}
  IsPointed v not_marked s = Unit {0}
  IsPointed v other_checksum s = Unit {0}
  IsPointed v bad_pointer s = Unit {0}
  IsPointed v superseded s = IsAtLeast v superseded s
  IsPointed v switched s = IsAtLeast v switched s

  move_pointer-IsPointed :
      (v : ℕ) (o : Option Value) (s : R.State)
      → R.get s active ≡ o
      → IsPointed v (move_pointer R C v o s).0 (move_pointer R C v o s).1
  unfolding move_pointer
  move_pointer-IsPointed v none s e = (v, omega arith, R.get-set_self s active (number v))
  move_pointer-IsPointed v (some (text t)) s e = tt
  move_pointer-IsPointed v (some (number a)) s e = elim (Bool-cases (ltb v a)) [
    | inl newer ↦ rw (move_pointer, newer) (a, ground (arith, newer), e)
    | inr other ↦ rw (move_pointer, other) (v, omega arith, R.get-set_self s active (number v))
  ]

  activate_script-IsPointed :
      (v : ℕ) (checksum : String) (s : R.State)
      → IsPointed v (activate_script R C v checksum s).0 (activate_script R C v checksum s).1
  unfolding activate_script
  activate_script-IsPointed v checksum s = elim (Option-cases (R.get s (payload v))) [
    | inl missing ↦ rw (activate_script, missing) tt
    | inr (t, there) ↦ elim (Option-cases (R.get s (manifest v))) [
      | inl missing ↦ rw (activate_script, there, missing) tt
      | inr (m, with_manifest) ↦ elim (Bool-cases (is_text R C checksum (some m))) [
        | inl same ↦
            rw (activate_script, there, with_manifest, same)
              (move_pointer-IsPointed v (R.get s active) s refl)
        | inr other ↦ rw (activate_script, there, with_manifest, other) tt
      ]
    ]
  ]

  switch_answer-Goes :
      (v : ℕ) (a : Switch) (c : Conn (Site R C))
      → IsPointed v a c.store.store
      → Goes R C c.store (IsAtLeast v) (switch_answer R C a c)
  switch_answer-Goes v not_written c p = (here, tt)
  switch_answer-Goes v not_marked c p = (here, tt)
  switch_answer-Goes v other_checksum c p = (here, tt)
  switch_answer-Goes v bad_pointer c p = (here, tt)
  switch_answer-Goes v superseded c p = (here, p)
  switch_answer-Goes v switched c p = (here, p)

  pub activate-Runs : (v : ℕ) (checksum : String) → Runs R C (IsAtLeast v) (activate R C v checksum)
  unfolding activate
  activate-Runs v checksum =
      >>=-Runs R C (IsPointed v) (IsAtLeast v) (ask R C (activate_script R C v checksum))
        (switch_answer R C)
        (ask-Runs R C (IsPointed v) (activate_script R C v checksum)
          (λ w. (next here (switch v checksum), activate_script-IsPointed v checksum w.store)))
        (switch_answer-Goes v)

  pub retain_versions-Goes :
      (scanned : List ℕ) (v count ttl_seconds : ℕ) (c : Conn (Site R C))
      → IsAtLeast v tt c.store.store
      → Goes R C c.store (IsAny R C) (retain_versions R C scanned v count ttl_seconds c)
  unfolding retain_versions
  retain_versions-Goes scanned v count ttl_seconds c (b, le, at_b) =
      elim (Bool-cases (ltb count 1 || ltb ttl_seconds 1)) [
        | inl invalid ↦ rw invalid (here, tt)
        | inr valid ↦ elim (Bool-cases c.reachable) [
          | inl up ↦ rw (valid, up) ((retention-Reach R C v count scanned b c.store le at_b).0, tt)
          | inr down ↦ rw (valid, down) (here, tt)
        ]
      ]
