-- ===== src/Runtime/Snapshots/Served.antt =====
-- What holds of the store of snapshots (mixapi/runtime/snapshots.py) whatever its users do.
use mathlib.Core.Path.{subst}
use native.Mathlib.Decide.{ℕ_discrete}
use mixapi.Shared.{
  ℕ, ◌≡◌, ◌≢◌, refl, ap, sym, ◌∙◌, ◌⊎◌, inl, inr, none, some, String, arith, true, eq_iff, ◌≤◌,
}
use mixapi.Redis.{Redis}
use mixapi.Runtime.Snapshots.{
  Site, SnapshotKey, active, payload, manifest, Value, number, text, Codec, is_text,
}
use mixapi.Runtime.Snapshots.History.{IsOld, IsIn}

module _ (R : Redis SnapshotKey Value) (C : Codec) where
  -- A snapshot stands at its version, and its checksum in the manifest.
  pub record IsReady (v : ℕ) (s : R.State) : Type 0 where
    pub snapshot : C.Snapshot
    pub version_is : C.version snapshot ≡ v
    pub payload_is : R.get s (payload v) ≡ some (text (C.to_json snapshot))
    pub manifest_is : R.get s (manifest v) ≡ some (text (C.checksum snapshot))

  abbrev IsPayload : ℕ → Value → Type 0
  IsPayload v o = (x : C.Snapshot) × (C.version x ≡ v) × (o ≡ text (C.to_json x))

  pub record IsSound (w : Site R C) : Type 0 where
    pub pointed : (o : Value) → R.get w.store active ≡ some o → (a : ℕ) × (o ≡ number a)
    pub served : (a : ℕ) → R.get w.store active ≡ some (number a) → IsReady a w.store
    pub payloads : (v : ℕ) (o : Value) → R.get w.store (payload v) ≡ some o → IsPayload v o
    pub manifests :
        (v : ℕ) (o : Value)
        → R.get w.store (manifest v) ≡ some o
        → IsReady v w.store ⊎ IsOld R C v w.store
    pub aging_old : (v : ℕ) → IsIn R C v w.aging → IsOld R C v w.store

  pub is_text-eq : (t : String) (o : Value) → is_text R C t (some o) ≡ true → o ≡ text t
  is_text-eq t (text u) h = ap text ((eq_iff u t).0 h)
  is_text-eq t (number n) h = cc h

  -- A store that has the same pointer, and the same keys of a version.
  IsOld-same :
      (v : ℕ) (s s' : R.State) → R.get s' active ≡ R.get s active → IsOld R C v s → IsOld R C v s'
  IsOld-same v s s' same old = record {
    newer = old.newer;
    active_is = same ∙ old.active_is;
    lower = old.lower;
  }

  IsReady-same :
      (v : ℕ) (s s' : R.State)
      → R.get s' (payload v) ≡ R.get s (payload v)
      → R.get s' (manifest v) ≡ R.get s (manifest v)
      → IsReady v s
      → IsReady v s'
  IsReady-same v s s' same_payload same_manifest ready = record {
    snapshot = ready.snapshot;
    version_is = ready.version_is;
    payload_is = same_payload ∙ ready.payload_is;
    manifest_is = same_manifest ∙ ready.manifest_is;
  }

  -- The version that is served is not an older one.
  old_ne : (v a : ℕ) (s : R.State) → IsOld R C v s → R.get s active ≡ some (number a) → v ≢ a
  old_ne v a s old e same =
      let e' : some (number a) ≡ some (number old.newer) = sym e ∙ old.active_is in
      absurd (ground (arith, e', old.lower, same))

  module _ (w : Site R C) (sound : IsSound w) where
    pub write-IsSound :
        (x : C.Snapshot)
        → R.get w.store (payload (C.version x)) ≡ none
        → IsSound (record w { store = R.set w.store (payload (C.version x)) (text (C.to_json x)) })
    write-IsSound x missing =
        let v = C.version x in
        let s' = R.set w.store (payload v) (text (C.to_json x)) in
        let same : R.get s' active ≡ R.get w.store active = grind (arith, R.get-set_ne) in
        let manifest_same : (u : ℕ) → R.get s' (manifest u) ≡ R.get w.store (manifest u) =
          λ u. grind (arith, R.get-set_ne) in
        let payload_same : (u : ℕ) → v ≢ u → R.get s' (payload u) ≡ R.get w.store (payload u) =
          λ u ne. grind (arith, R.get-set_ne) in
        let ready : (u : ℕ) → IsReady u w.store → IsReady u s' = λ u r.
          IsReady-same u w.store s' (payload_same u (λ e. cc (rw e at missing, r.payload_is)))
            (manifest_same u) r in
        record {
          pointed = λ o e. sound.pointed o (sym same ∙ e);
          served = λ a e. ready a (sound.served a (sym same ∙ e));
          payloads = λ u o e. elim (ℕ_discrete v u) [
            | yes at_v ↦ (
              x,
              at_v,
              cc (rw (← at_v) at e, R.get-set_self w.store (payload v) (text (C.to_json x))),
            )
            | no other ↦ sound.payloads u o (sym (payload_same u other) ∙ e)
          ];
          manifests = λ u o e. elim (sound.manifests u o (sym (manifest_same u) ∙ e)) [
            | inl r ↦ inl (ready u r)
            | inr old ↦ inr (IsOld-same u w.store s' same old)
          ];
          aging_old = λ u i. IsOld-same u w.store s' same (sound.aging_old u i);
        }

    pub mark-IsSound :
        (x : C.Snapshot)
        → R.get w.store (payload (C.version x)) ≡ some (text (C.to_json x))
        → R.get w.store (manifest (C.version x)) ≡ none
        → IsSound
            (record w { store = R.set w.store (manifest (C.version x)) (text (C.checksum x)) })
    mark-IsSound x written missing =
        let v = C.version x in
        let s' = R.set w.store (manifest v) (text (C.checksum x)) in
        let same : R.get s' active ≡ R.get w.store active = grind (arith, R.get-set_ne) in
        let payload_same : (u : ℕ) → R.get s' (payload u) ≡ R.get w.store (payload u) =
          λ u. grind (arith, R.get-set_ne) in
        let manifest_same : (u : ℕ) → v ≢ u → R.get s' (manifest u) ≡ R.get w.store (manifest u) =
          λ u ne. grind (arith, R.get-set_ne) in
        let ready : (u : ℕ) → IsReady u w.store → IsReady u s' = λ u r.
          IsReady-same u w.store s' (payload_same u)
            (manifest_same u (λ e. cc (rw e at missing, r.manifest_is))) r in
        let new : IsReady v s' = record {
          snapshot = x;
          version_is = refl;
          payload_is = payload_same v ∙ written;
          manifest_is = R.get-set_self w.store (manifest v) (text (C.checksum x));
        } in
        record {
          pointed = λ o e. sound.pointed o (sym same ∙ e);
          served = λ a e. ready a (sound.served a (sym same ∙ e));
          payloads = λ u o e. sound.payloads u o (sym (payload_same u) ∙ e);
          manifests = λ u o e. elim (ℕ_discrete v u) [
            | yes at_v ↦ inl (subst (λ u'. IsReady u' s') at_v new)
            | no other ↦ elim (sound.manifests u o (sym (manifest_same u other) ∙ e)) [
              | inl r ↦ inl (ready u r)
              | inr old ↦ inr (IsOld-same u w.store s' same old)
            ]
          ];
          aging_old = λ u i. IsOld-same u w.store s' same (sound.aging_old u i);
        }

    -- The pointer moves to a version that is ready, from none or from one that is not higher.
    pub switch-IsSound :
        (v : ℕ)
        → IsReady v w.store
        → ((a : ℕ) → R.get w.store active ≡ some (number a) → a ≤ v)
        → IsSound (record w { store = R.set w.store active (number v) })
    switch-IsSound v ready_v upward =
        let s' = R.set w.store active (number v) in
        let now : R.get s' active ≡ some (number v) = R.get-set_self w.store active (number v) in
        let payload_same : (u : ℕ) → R.get s' (payload u) ≡ R.get w.store (payload u) =
          λ u. grind (arith, R.get-set_ne) in
        let manifest_same : (u : ℕ) → R.get s' (manifest u) ≡ R.get w.store (manifest u) =
          λ u. grind (arith, R.get-set_ne) in
        let ready : (u : ℕ) → IsReady u w.store → IsReady u s' =
          λ u r. IsReady-same u w.store s' (payload_same u) (manifest_same u) r in
        let old : (u : ℕ) → IsOld R C u w.store → IsOld R C u s' = λ u o. record {
          newer = v;
          active_is = now;
          lower = let up : o.newer ≤ v = upward o.newer o.active_is in omega (arith, up, o.lower);
        } in
        record {
          pointed = λ o e. (v, cc (now, e));
          served = λ a e.
              let is_v : v ≡ a = cc (now, e) in subst (λ u'. IsReady u' s') is_v (ready v ready_v);
          payloads = λ u o e. sound.payloads u o (sym (payload_same u) ∙ e);
          manifests = λ u o e. elim (sound.manifests u o (sym (manifest_same u) ∙ e)) [
            | inl r ↦ inl (ready u r)
            | inr o' ↦ inr (old u o')
          ];
          aging_old = λ u i. old u (sound.aging_old u i);
        }

    -- The keys of an older version go, one of them or both.
    pub forget-IsSound :
        (v : ℕ) (s' : R.State)
        → IsOld R C v w.store
        → R.get s' active ≡ R.get w.store active
        → ((u : ℕ) → v ≢ u → R.get s' (payload u) ≡ R.get w.store (payload u))
        → ((u : ℕ) → v ≢ u → R.get s' (manifest u) ≡ R.get w.store (manifest u))
        → ((R.get s' (payload v) ≡ none) ⊎ (R.get s' (payload v) ≡ R.get w.store (payload v)))
        → IsSound (record w { store = s' })
    forget-IsSound v s' old_v same payload_same manifest_same gone = record {
      pointed = λ o e. sound.pointed o (sym same ∙ e);
      served = λ a e.
          let before = sym same ∙ e in
          let other = old_ne v a w.store old_v before in
          IsReady-same a w.store s' (payload_same a other) (manifest_same a other)
            (sound.served a before);
      payloads = λ u o e. elim (ℕ_discrete v u) [
        | no other ↦ sound.payloads u o (sym (payload_same u other) ∙ e)
        | yes at_v ↦ elim gone [
          | inl none_left ↦ absurd (cc (rw at_v at none_left, e))
          | inr kept ↦ sound.payloads u o (sym (rw at_v at kept) ∙ e)
        ]
      ];
      manifests = λ u o e. elim (ℕ_discrete v u) [
        | yes at_v ↦ inr (IsOld-same u w.store s' same (rw at_v at old_v))
        | no other ↦ elim (sound.manifests u o (sym (manifest_same u other) ∙ e)) [
          | inl r ↦ inl (IsReady-same u w.store s' (payload_same u other) (manifest_same u other) r)
          | inr old ↦ inr (IsOld-same u w.store s' same old)
        ]
      ];
      aging_old = λ u i. IsOld-same u w.store s' same (sound.aging_old u i);
    }
