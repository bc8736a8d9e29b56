-- ===== src/Publication/Serves.antt =====
-- A publication that succeeds (mixapi/publication.py).
use mixapi.Shared.{
  ap, err, ℕ, Bool, ◌<◌, ◌≤◌, ◌≡◌, refl, sym, ◌∙◌, none, some, List, arith, true, false, ok, ltb,
  ◌||◌, if◌then◌else◌, nat_eq, inl, inr, Option-cases, eq_refl, Result, ◌==◌,
}
use mixapi.Redis.{Redis, Conn}
use mixapi.Runtime.Snapshots.{
  Site, SnapshotKey, active, payload, manifest, Value, number, text, Codec, set_nx,
  mark_ready_script, activate_script, move_pointer, write_pending, mark_ready, activate,
  retain_versions, active_version, load, carry_out, retention, ◌>>=◌, ◌>>◌, read_snapshot, Attempt,
  ask, fail, mark_answer, SnapshotError, snapshot_conflict,
}
use mixapi.Runtime.Snapshots.Served.{IsReady}
use mixapi.Runtime.Snapshots.Active.{IsFaithful, up, load-IsReady, active_version-number}
use mixapi.Runtime.Snapshots.Retention.{retention_spares}
use mixapi.Publication.{publish_snapshot, publish_steps, translate}

>>=-returned :
    {S A B : Type 0} (m : Attempt S A) (f : A → Attempt S B) (c : Conn S) (a : A) (c' : Conn S)
    → m c ≡ (ok a, c')
    → (m >>= f) c ≡ f a c'
>>=-returned {S} {A} {B} m f c a c' e =
    let rest : Result SnapshotError A × Conn S → Result SnapshotError B × Conn S =
      λ x. let (r, c0) = x in elim r [ ok a0 ↦ f a0 c0 | err e0 ↦ (err e0, c0) ] in
    ap rest e

module _ (R : Redis SnapshotKey Value) (C : Codec) (faithful : IsFaithful R C)
    (x : C.Snapshot) where
  abbrev v : ℕ
  v = C.version x

  abbrev written : Site R C → Site R C
  written s = record s { store = R.set s.store (payload v) (text (C.to_json x)) }

  abbrev marked : Site R C → Site R C
  marked s = record s { store = R.set s.store (manifest v) (text (C.checksum x)) }

  write_pending_new :
      (s : Site R C)
      → R.get s.store (payload v) ≡ none
      → write_pending R C x (up R C s) ≡ (ok true, up R C (written s))
  unfolding write_pending set_nx
  write_pending_new s missing = rw missing refl

  load_written :
      (s : Site R C)
      → R.get s.store (payload v) ≡ some (text (C.to_json x))
      → load R C v true (up R C s) ≡ (ok x, up R C s)
  unfolding load read_snapshot
  load_written s there =
      let same : nat_eq v v ≡ true = ground arith in
      rw (there, load, read_snapshot, faithful.reads x, same) refl

  mark_ready_new :
      (s : Site R C)
      → R.get s.store (payload v) ≡ some (text (C.to_json x))
      → R.get s.store (manifest v) ≡ none
      → mark_ready R C v (C.checksum x) (up R C s) ≡ (ok true, up R C (marked s))
  unfolding mark_ready mark_ready_script load read_snapshot
  mark_ready_new s there missing =
      >>=-returned (load R C v true)
        (λ x'.
          if C.checksum x' == C.checksum x
          then ask R C (mark_ready_script R C v (C.to_json x') (C.checksum x)) >>= mark_answer R C
          else fail snapshot_conflict)
        (up R C s) x (up R C s) (load_written s there)
      ∙ rw (eq_refl (C.checksum x), there, mark_ready_script, eq_refl (C.to_json x), missing) refl

  abbrev switched : Site R C → Site R C
  switched s = record s { store = R.set s.store active (number v) }

  activate_new :
      (s : Site R C)
      → R.get s.store (payload v) ≡ some (text (C.to_json x))
      → R.get s.store (manifest v) ≡ some (text (C.checksum x))
      → ((o : Value) → R.get s.store active ≡ some o → (a : ℕ) × (o ≡ number a) × (a ≤ v))
      → activate R C v (C.checksum x) (up R C s) ≡ (ok true, up R C (switched s))
  unfolding activate activate_script move_pointer
  activate_new s there marked' lower = elim (Option-cases (R.get s.store active)) [
    | inl unset ↦
        rw (activate_script, there, marked', eq_refl (C.checksum x), move_pointer, unset) refl
    | inr (o, set) ↦
        let (a, is_number, le) = lower o set in
        let upward : ltb v a ≡ false = ground (arith, le) in
        rw
          (
            activate_script,
            there,
            marked',
            eq_refl (C.checksum x),
            move_pointer,
            set,
            is_number,
            upward,
          )
          refl
  ]

  -- On a server that answers, for a JSON form that is read back and versions that are positive, and
  -- for retention by at least one version and one second: a snapshot at a version that has no keys yet, and that is
  -- not below the active one, is published without an error, and then it is active and loaded.
  pub publish_snapshot_serves :
      (scanned : List ℕ) (count ttl_seconds : ℕ) (missing_is_not_ready : Bool) (s : Site R C)
      → 0 < count
      → 0 < ttl_seconds
      → R.get s.store (payload v) ≡ none
      → R.get s.store (manifest v) ≡ none
      → ((o : Value) → R.get s.store active ≡ some o → (a : ℕ) × (o ≡ number a) × (a ≤ v))
      → (s' : Site R C) × (publish_snapshot R C scanned count ttl_seconds x (up R C s)
          ≡ (ok tt, up R C s'))
        × (active_version R C (up R C s') ≡ (ok (some v), up R C s'))
        × (load R C v missing_is_not_ready (up R C s') ≡ (ok x, up R C s'))
  unfolding publish_snapshot publish_steps retain_versions
  publish_snapshot_serves scanned count ttl missing s positive long no_payload no_manifest lower =
      let s1 = written s in
      let s2 = marked s1 in
      let s3 = switched s2 in
      let s4 = carry_out R C (retention v count scanned) s3 in
      let (active_same, payload_same, manifest_same) = retention_spares R C v count scanned s3 in
      let p1 : R.get s1.store (payload v) ≡ some (text (C.to_json x)) =
        R.get-set_self s.store (payload v) _ in
      let m1 : R.get s1.store (manifest v) ≡ none = (grind (arith, R.get-set_ne)) ∙ no_manifest in
      let p2 : R.get s2.store (payload v) ≡ some (text (C.to_json x)) =
        (grind (arith, R.get-set_ne)) ∙ p1 in
      let m2 : R.get s2.store (manifest v) ≡ some (text (C.checksum x)) =
        R.get-set_self s1.store (manifest v) _ in
      let same : R.get s2.store active ≡ R.get s.store active = grind (arith, R.get-set_ne) in
      let lower2 : (o : Value)
          → R.get s2.store active ≡ some o
          → (a : ℕ) × (o ≡ number a) × (a ≤ v) =
        λ o e. lower o (sym same ∙ e) in
      let p3 : R.get s3.store (payload v) ≡ some (text (C.to_json x)) =
        (grind (arith, R.get-set_ne)) ∙ p2 in
      let m3 : R.get s3.store (manifest v) ≡ some (text (C.checksum x)) =
        (grind (arith, R.get-set_ne)) ∙ m2 in
      let ready : IsReady R C v s4.store = record {
        snapshot = x;
        version_is = refl;
        payload_is = payload_same ∙ p3;
        manifest_is = manifest_same ∙ m3;
      } in
      let fine : (ltb count 1 || ltb ttl 1) ≡ false = ground (arith, positive, long) in
      let put = write_pending R C x in
      let ready_it = mark_ready R C v (C.checksum x) in
      let switch_it = activate R C v (C.checksum x) in
      let retain = retain_versions R C scanned v count ttl in
      let published : publish_steps R C scanned count ttl x (up R C s) ≡ (ok tt, up R C s4) =
        >>=-returned (put >> ready_it >> switch_it) (λ _. retain) (up R C s) true (up R C s3)
          (>>=-returned (put >> ready_it) (λ _. switch_it) (up R C s) true (up R C s2)
              (>>=-returned put (λ _. ready_it) (up R C s) true (up R C s1)
                  (write_pending_new s no_payload)
                ∙ mark_ready_new s1 p1 m1)
            ∙ activate_new s2 p2 m2 lower2)
        ∙ rw fine refl in
      (
        s4,
        ap translate published,
        active_version-number R C faithful v s4
            (active_same ∙ R.get-set_self s2.store active (number v)) (faithful.positive x),
        load-IsReady R C faithful v missing s4 ready,
      )
