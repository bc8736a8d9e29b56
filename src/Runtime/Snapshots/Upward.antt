-- ===== src/Runtime/Snapshots/Upward.antt =====
-- The active version of the routing configuration (mixapi/runtime/snapshots.py) never goes back.
use mixapi.Shared.{
  ℕ, ◌≤◌, ◌≡◌, refl, ◌∙◌, inl, inr, none, some, String, arith, Bool-cases, Option-cases, Option,
  is_some, ltb,
}
use mixapi.Redis.{Redis}
use mixapi.Runtime.Snapshots.{
  Site, SnapshotKey, active, payload, manifest, Value, number, text, Codec, is_text, set_nx,
  mark_ready_script, activate_script, move_pointer,
}
use mixapi.Runtime.Snapshots.History.{
  keep, Step, write, mark, switch, age, discard, expire_payload, expire_manifest, Reach, here, next,
}

module _ (R : Redis SnapshotKey Value) (C : Codec) (a : ℕ) where
  -- The pointer is a number, and it is at least `a`.
  abbrev pub IsAtLeast : R.State → Type 0
  IsAtLeast s = (b : ℕ) × (R.get s active ≡ some (number b)) × (a ≤ b)

  same-IsAtLeast : (s s' : R.State) → R.get s' active ≡ R.get s active → IsAtLeast s → IsAtLeast s'
  same-IsAtLeast s s' same (b, e, le) = (b, same ∙ e, le)

  set_nx-IsAtLeast :
      (v : ℕ) (t : String) (s : R.State) → IsAtLeast s → IsAtLeast (set_nx R C (payload v) t s).1
  unfolding set_nx
  set_nx-IsAtLeast v t s h = elim (Bool-cases (is_some (R.get s (payload v)))) [
    | inl there ↦ rw there h
    | inr missing ↦ rw missing (same-IsAtLeast s _ (grind (arith, R.get-set_ne)) h)
  ]

  mark_ready_script-IsAtLeast :
      (v : ℕ) (t checksum : String) (s : R.State)
      → IsAtLeast s
      → IsAtLeast (mark_ready_script R C v t checksum s).1
  unfolding mark_ready_script
  mark_ready_script-IsAtLeast v t checksum s h = elim (Option-cases (R.get s (payload v))) [
    | inl missing ↦ rw (mark_ready_script, missing) h
    | inr (found, there) ↦ elim (Bool-cases (is_text R C t (some found))) [
      | inr other ↦ rw (mark_ready_script, there, other) h
      | inl same ↦ elim (Option-cases (R.get s (manifest v))) [
        | inr (m, marked) ↦ rw (mark_ready_script, there, same, marked) h
        | inl unmarked ↦
            rw (mark_ready_script, there, same, unmarked)
              (same-IsAtLeast s _ (grind (arith, R.get-set_ne)) h)
      ]
    ]
  ]

  move_pointer-IsAtLeast :
      (v : ℕ) (o : Option Value) (s : R.State)
      → R.get s active ≡ o
      → IsAtLeast s
      → IsAtLeast (move_pointer R C v o s).1
  unfolding move_pointer
  move_pointer-IsAtLeast v none s e (b, at_b, le) = absurd (cc (e, at_b))
  move_pointer-IsAtLeast v (some (text t)) s e h = h
  move_pointer-IsAtLeast v (some (number n)) s e (b, at_b, le) = elim (Bool-cases (ltb v n)) [
    | inl lower ↦ rw lower (b, at_b, le)
    | inr upward ↦
        let same : n ≡ b = cc (e, at_b) in
        rw upward (v, R.get-set_self s active (number v), ground (arith, same, upward, le))
  ]

  activate_script-IsAtLeast :
      (v : ℕ) (checksum : String) (s : R.State)
      → IsAtLeast s
      → IsAtLeast (activate_script R C v checksum s).1
  unfolding activate_script
  activate_script-IsAtLeast v checksum s h = elim (Option-cases (R.get s (payload v))) [
    | inl missing ↦ rw (activate_script, missing) h
    | inr (found, there) ↦ elim (Option-cases (R.get s (manifest v))) [
      | inl unmarked ↦ rw (activate_script, there, unmarked) h
      | inr (m, marked) ↦ elim (Bool-cases (is_text R C checksum (some m))) [
        | inr other ↦ rw (activate_script, there, marked, other) h
        | inl same ↦
            rw (activate_script, there, marked, same)
              (move_pointer-IsAtLeast v (R.get s active) s refl h)
      ]
    ]
  ]

  Step-IsAtLeast : {w w' : Site R C} → Step R C w w' → IsAtLeast w.store → IsAtLeast w'.store
  Step-IsAtLeast {w} (write x) h = set_nx-IsAtLeast (C.version x) (C.to_json x) w.store h
  Step-IsAtLeast {w} (mark x) h =
      mark_ready_script-IsAtLeast (C.version x) (C.to_json x) (C.checksum x) w.store h
  Step-IsAtLeast {w} (switch v checksum) h = activate_script-IsAtLeast v checksum w.store h
  Step-IsAtLeast {w} (keep v) h = h
  Step-IsAtLeast {w} (age v old) h = h
  Step-IsAtLeast {w} (discard v old) h = same-IsAtLeast w.store _ (grind (arith, R.get-delete_ne)) h
  Step-IsAtLeast {w} (expire_payload v i) h =
      same-IsAtLeast w.store _ (grind (arith, R.get-delete_ne)) h
  Step-IsAtLeast {w} (expire_manifest v i) h =
      same-IsAtLeast w.store _ (grind (arith, R.get-delete_ne)) h

  -- Once a version is active, the pointer stays a number and never goes below it, whatever publishers, rebuilds
  -- and retention do, in whatever order of their commands, and whichever keys expire.
  pub active_never_back :
      {w w' : Site R C}
      → Reach R C w w'
      → R.get w.store active ≡ some (number a)
      → IsAtLeast w'.store
  active_never_back here e = (a, e, omega arith)
  active_never_back (next r st) e = Step-IsAtLeast st (active_never_back r e)
