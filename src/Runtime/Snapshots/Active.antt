-- ===== src/Runtime/Snapshots/Active.antt =====
-- The active version of the routing configuration (mixapi/runtime/snapshots.py) can always be loaded,
-- and it never goes back.
use mixapi.Shared.{
  ℕ, zero, suc, ◌<◌, ◌≡◌, refl, ap, ◌∙◌, ◌⊎◌, inl, inr, none, some, [], String, arith, Bool-cases,
  Option-cases, Option, Bool, true, ltb, ok, nat_eq,
}
use mixapi.Redis.{Redis, Conn}
use mixapi.Runtime.Snapshots.{
  Site, SnapshotKey, active, payload, manifest, Value, number, text, Codec, is_text, set_nx,
  mark_ready_script, activate_script, move_pointer, active_version, load, read_snapshot,
}
use mixapi.Runtime.Snapshots.History.{
  IsOld, keep, Step, write, mark, switch, age, discard, expire_payload, expire_manifest, Reach,
  here, next,
}
use mixapi.Runtime.Snapshots.Persist.{remove-IsIn}
use mixapi.Runtime.Snapshots.Served.{
  IsReady, IsSound, is_text-eq, write-IsSound, mark-IsSound, switch-IsSound, forget-IsSound,
}

module _ (R : Redis SnapshotKey Value) (C : Codec) where
  set_nx-IsSound :
      (w : Site R C) (x : C.Snapshot)
      → IsSound R C w
      → IsSound R C
          (record w { store = (set_nx R C (payload (C.version x)) (C.to_json x) w.store).1 })
  unfolding set_nx
  set_nx-IsSound w x sound = elim (Option-cases (R.get w.store (payload (C.version x)))) [
    | inl missing ↦ rw missing (write-IsSound R C w sound x missing)
    | inr (o, there) ↦ rw there sound
  ]

  mark_ready_script-IsSound :
      (w : Site R C) (x : C.Snapshot)
      → IsSound R C w
      → IsSound R C (record w {
        store = (mark_ready_script R C (C.version x) (C.to_json x) (C.checksum x) w.store).1;
      })
  unfolding mark_ready_script
  mark_ready_script-IsSound w x sound =
      elim (Option-cases (R.get w.store (payload (C.version x)))) [
        | inl missing ↦ rw (mark_ready_script, missing) sound
        | inr (found, there) ↦ elim (Bool-cases (is_text R C (C.to_json x) (some found))) [
          | inr other ↦ rw (mark_ready_script, there, other) sound
          | inl same ↦ elim (Option-cases (R.get w.store (manifest (C.version x)))) [
            | inr (m, marked) ↦ rw (mark_ready_script, there, same, marked) sound
            | inl unmarked ↦
                rw (mark_ready_script, there, same, unmarked)
                  (mark-IsSound R C w sound x
                    (there ∙ ap some (is_text-eq R C (C.to_json x) found same)) unmarked)
          ]
        ]
      ]

  -- A version that is marked, and to which the pointer may move, is ready.
  move_pointer-IsSound :
      (w : Site R C) (v : ℕ) (o : Option Value)
      → IsSound R C w
      → IsReady R C v w.store ⊎ IsOld R C v w.store
      → R.get w.store active ≡ o
      → IsSound R C (record w { store = (move_pointer R C v o w.store).1 })
  unfolding move_pointer
  move_pointer-IsSound w v none sound (inl ready) e =
      switch-IsSound R C w sound v ready (λ a e'. absurd (cc (e, e')))
  move_pointer-IsSound w v none sound (inr old) e = absurd (cc (e, old.active_is))
  move_pointer-IsSound w v (some (text t)) sound known e = sound
  move_pointer-IsSound w v (some (number a)) sound known e = elim (Bool-cases (ltb v a)) [
    | inl lower ↦ rw lower sound
    | inr upward ↦ elim known [
      | inl ready ↦ rw upward (
          switch-IsSound R C w sound v ready
            (λ b e'. let same : a ≡ b = cc (e, e') in ground (arith, same, upward)))
      | inr old ↦
          let same : a ≡ old.newer = cc (e, old.active_is) in
          absurd (ground (arith, same, upward, old.lower))
    ]
  ]

  activate_script-IsSound :
      (w : Site R C) (v : ℕ) (checksum : String)
      → IsSound R C w
      → IsSound R C (record w { store = (activate_script R C v checksum w.store).1 })
  unfolding activate_script
  activate_script-IsSound w v checksum sound = elim (Option-cases (R.get w.store (payload v))) [
    | inl missing ↦ rw (activate_script, missing) sound
    | inr (found, there) ↦ elim (Option-cases (R.get w.store (manifest v))) [
      | inl unmarked ↦ rw (activate_script, there, unmarked) sound
      | inr (m, marked) ↦ elim (Bool-cases (is_text R C checksum (some m))) [
        | inr other ↦ rw (activate_script, there, marked, other) sound
        | inl same ↦
            rw (activate_script, there, marked, same)
              (move_pointer-IsSound w v (R.get w.store active) sound (sound.manifests v m marked)
                refl)
      ]
    ]
  ]

  Step-IsSound : {w w' : Site R C} → Step R C w w' → IsSound R C w → IsSound R C w'
  Step-IsSound {w} (write x) sound = set_nx-IsSound w x sound
  Step-IsSound {w} (mark x) sound = mark_ready_script-IsSound w x sound
  Step-IsSound {w} (switch v checksum) sound = activate_script-IsSound w v checksum sound
  Step-IsSound {w} (keep v) sound = record {
    pointed = sound.pointed;
    served = sound.served;
    payloads = sound.payloads;
    manifests = sound.manifests;
    aging_old = λ u i. sound.aging_old u (remove-IsIn R C v u w.aging i);
  }
  Step-IsSound {w} (age v old) sound = record {
    pointed = sound.pointed;
    served = sound.served;
    payloads = sound.payloads;
    manifests = sound.manifests;
    aging_old = λ u i. elim i [ inl same ↦ rw same old | inr i' ↦ sound.aging_old u i' ];
  }
  Step-IsSound {w} (discard v old) sound =
      forget-IsSound R C w sound v _ old (grind (arith, R.get-delete_ne))
        (λ u ne. grind (arith, R.get-delete_ne)) (λ u ne. grind (arith, R.get-delete_ne))
        (inl (grind (arith, R.get-delete_ne, R.get-delete_self)))
  Step-IsSound {w} (expire_payload v i) sound =
      forget-IsSound R C w sound v _ (sound.aging_old v i) (grind (arith, R.get-delete_ne))
        (λ u ne. grind (arith, R.get-delete_ne)) (λ u ne. grind (arith, R.get-delete_ne))
        (inl (R.get-delete_self w.store (payload v)))
  Step-IsSound {w} (expire_manifest v i) sound =
      forget-IsSound R C w sound v _ (sound.aging_old v i) (grind (arith, R.get-delete_ne))
        (λ u ne. grind (arith, R.get-delete_ne)) (λ u ne. grind (arith, R.get-delete_ne))
        (inr (grind (arith, R.get-delete_ne)))

  Reach-IsSound : {w w' : Site R C} → IsSound R C w → Reach R C w w' → IsSound R C w'
  Reach-IsSound sound here = sound
  Reach-IsSound sound (next r st) = Step-IsSound st (Reach-IsSound sound r)

  -- The JSON form of a snapshot is read back, and versions are positive (mixapi/snapshots.py).
  pub record IsFaithful : Type 0 where
    pub reads : (x : C.Snapshot) → C.from_json (C.to_json x) ≡ some x
    pub positive : (x : C.Snapshot) → 0 < C.version x

  pub record IsEmpty (w : Site R C) : Type 0 where
    pub nothing : (k : SnapshotKey) → R.get w.store k ≡ none
    pub none_aging : w.aging ≡ []

  empty-IsSound : (w : Site R C) → IsEmpty w → IsSound R C w
  empty-IsSound w empty = record {
    pointed = λ o e. absurd (cc (empty.nothing active, e));
    served = λ a e. absurd (cc (empty.nothing active, e));
    payloads = λ v o e. absurd (cc (empty.nothing (payload v), e));
    manifests = λ v o e. absurd (cc (empty.nothing (manifest v), e));
    aging_old = λ v i. absurd (rw empty.none_aging at i);
  }

  abbrev pub up : Site R C → Conn (Site R C)
  up w = record { reachable = true; store = w }

  module _ (faithful : IsFaithful) where
    pub load-IsReady :
        (v : ℕ) (missing : Bool) (w : Site R C) (ready : IsReady R C v w.store)
        → load R C v missing (up w) ≡ (ok ready.snapshot, up w)
    unfolding load read_snapshot
    load-IsReady v missing w ready =
        let same : nat_eq (C.version ready.snapshot) v ≡ true = ground (arith, ready.version_is) in
        rw (ready.payload_is, load, read_snapshot, faithful.reads ready.snapshot, same) refl

    pub active_version-number :
        (a : ℕ) (w : Site R C)
        → R.get w.store active ≡ some (number a)
        → 0 < a
        → active_version R C (up w) ≡ (ok (some a), up w)
    unfolding active_version
    active_version-number zero w e positive = elim positive [ ]
    active_version-number (suc a) w e positive = rw e refl

    -- From an empty store, on a server that answers, for a JSON form that is read back and versions
    -- that are positive: whatever publishers, rebuilds and retention have done, in whatever order of
    -- their commands, and whichever keys have expired, there is no active version, or the snapshot of the active
    -- version is loaded, it is at that version, and the manifest of the version is its checksum.
    pub active_is_loaded :
        {w0 w : Site R C}
        → IsEmpty w0
        → Reach R C w0 w
        → (missing : Bool)
        → (active_version R C (up w) ≡ (ok none, up w))
          ⊎ ((a : ℕ) × (x : C.Snapshot) × (active_version R C (up w) ≡ (ok (some a), up w))
              × (load R C a missing (up w) ≡ (ok x, up w))
              × (C.version x ≡ a)
              × (R.get w.store (manifest a) ≡ some (text (C.checksum x))))
    unfolding active_version
    active_is_loaded {w0} {w} empty history missing =
        let sound = Reach-IsSound (empty-IsSound w0 empty) history in
        elim (Option-cases (R.get w.store active)) [
          | inl unset ↦ inl (rw unset refl)
          | inr (o, set) ↦
              let (a, is_number) = sound.pointed o set in
              let at_a : R.get w.store active ≡ some (number a) = set ∙ ap some is_number in
              let ready = sound.served a at_a in
              let positive : 0 < a = rw ready.version_is at (faithful.positive ready.snapshot) in
              inr (
                a,
                ready.snapshot,
                active_version-number a w at_a positive,
                load-IsReady a missing w ready,
                ready.version_is,
                ready.manifest_is,
              )
        ]
