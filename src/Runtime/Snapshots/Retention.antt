-- ===== src/Runtime/Snapshots/Retention.antt =====
-- What retention does to the store of snapshots (mixapi/runtime/snapshots.py).
use mixapi.Shared.{
  ◌⊎◌, ℕ, ◌≤◌, ◌≡◌, ◌≢◌, refl, ◌∙◌, inl, inr, some, List, [], ◌∷◌, any, map, arith, Bool-cases,
  false, ltb, leb, nat_eq, All,
}
use mixapi.Redis.{Redis}
use mixapi.Runtime.Snapshots.{
  Site, remove, SnapshotKey, active, payload, manifest, Value, number, Codec, up_to, insert_down,
  sort_down, take, action_of, retention, carry_out,
}
use mixapi.Runtime.Snapshots.History.{IsIn, IsOld, keep, age, discard, Reach, here, next}
use mixapi.Runtime.Snapshots.Persist.{retention-IsPersistent}

-- No version of the list is above `a`.
abbrev AreUpTo : ℕ → List ℕ → Type 0
AreUpTo a vs = All (λ v. v ≤ a) vs

up_to-AreUpTo : (a : ℕ) (vs : List ℕ) → AreUpTo a (up_to a vs)
unfolding up_to
up_to-AreUpTo a [] = tt
up_to-AreUpTo a (v ∷ vs) = elim (Bool-cases (leb v a)) [
  | inl low ↦ rw low (ground (arith, low), up_to-AreUpTo a vs)
  | inr high ↦ rw high (up_to-AreUpTo a vs)
]

insert_down-AreUpTo : (a v : ℕ) (vs : List ℕ) → v ≤ a → AreUpTo a vs → AreUpTo a (insert_down v vs)
unfolding insert_down
insert_down-AreUpTo a v [] le h = (le, tt)
insert_down-AreUpTo a v (w ∷ ws) le h = elim (Bool-cases (ltb v w)) [
  | inl later ↦ rw later (h.0, insert_down-AreUpTo a v ws le h.1)
  | inr here_it_is ↦ rw here_it_is (le, h)
]

sort_down-AreUpTo : (a : ℕ) (vs : List ℕ) → AreUpTo a vs → AreUpTo a (sort_down vs)
unfolding sort_down
sort_down-AreUpTo a [] h = tt
sort_down-AreUpTo a (v ∷ vs) h =
    insert_down-AreUpTo a v (sort_down vs) h.0 (sort_down-AreUpTo a vs h.1)

module _ (R : Redis SnapshotKey Value) (C : Codec) where
  -- The actions on a list of versions leave what is at a key that is not of an older version.
  module _ (a : ℕ) (retained : List ℕ) (k : SnapshotKey)
      (apart : (v : ℕ) → v ≢ a → (payload v ≢ k) × (manifest v ≢ k)) where
    carry_out-spares :
        (vs : List ℕ) (w : Site R C)
        → R.get (carry_out R C (map (action_of a retained) vs) w).store k ≡ R.get w.store k
    unfolding carry_out
    carry_out-spares [] w = refl
    carry_out-spares (v ∷ vs) w = elim (Bool-cases (nat_eq v a)) [
      | inl same ↦ rw same (carry_out-spares vs (record w { aging = remove v w.aging }))
      | inr other ↦ elim (Bool-cases (any (λ w. nat_eq w v) retained)) [
        | inl kept ↦ rw (other, kept) (carry_out-spares vs (record w { aging = v ∷ w.aging }))
        | inr dropped ↦
            let (p, m) = apart v (λ e. absurd (ground (arith, e, other))) in
            let s1 = R.delete w.store (payload v) in
            rw (other, dropped)
              (carry_out-spares vs (record w { store = R.delete s1 (manifest v) })
                ∙ R.get-delete_ne s1 (manifest v) k m
                ∙ R.get-delete_ne w.store (payload v) k p)
      ]
    ]

  -- Retention for the version `a` leaves the pointer, and what is at `a`.
  pub retention_spares :
      (a count : ℕ) (scanned : List ℕ) (w : Site R C)
      → let s' = (carry_out R C (retention a count scanned) w).store in
        let s = w.store in
        (R.get s' active ≡ R.get s active)
        × (R.get s' (payload a) ≡ R.get s (payload a))
        × (R.get s' (manifest a) ≡ R.get s (manifest a))
  unfolding retention
  retention_spares a count scanned w =
      let published = sort_down (up_to a scanned) in
      let retained = take count published in
      (
        carry_out-spares a retained active (λ v ne. (λ e. cc e, λ e. cc e)) published w,
        carry_out-spares a retained (payload a) (λ v ne. (λ e. ne (cc e), λ e. cc e)) published w,
        carry_out-spares a retained (manifest a) (λ v ne. (λ e. cc e, λ e. ne (cc e))) published w,
      )

  -- A pointer above the versions, to which the actions are confined.
  module _ (a : ℕ) (retained : List ℕ) (b : ℕ) (above : a ≤ b) where
    lower-IsOld :
        (v : ℕ) (s : R.State)
        → v ≤ a
        → nat_eq v a ≡ false
        → R.get s active ≡ some (number b)
        → IsOld R C v s
    lower-IsOld v s le other at_b = record {
      newer = b;
      active_is = at_b;
      lower = ground (arith, le, other, above);
    }

    carry_out-Reach :
        {w0 : Site R C} (vs : List ℕ) (w : Site R C)
        → AreUpTo a vs
        → R.get w.store active ≡ some (number b)
        → Reach R C w0 w
        → Reach R C w0 (carry_out R C (map (action_of a retained) vs) w)
    unfolding carry_out
    carry_out-Reach [] w h at_b r = r
    carry_out-Reach (v ∷ vs) w h at_b r = elim (Bool-cases (nat_eq v a)) [
      | inl same ↦
          rw same
            (carry_out-Reach vs (record w { aging = remove v w.aging }) h.1 at_b (next r (keep v)))
      | inr other ↦
          let old = lower-IsOld v w.store h.0 other at_b in
          elim (Bool-cases (any (λ x. nat_eq x v) retained)) [
            | inl kept ↦
                rw (other, kept)
                  (carry_out-Reach vs (record w { aging = v ∷ w.aging }) h.1 at_b
                    (next r (age v old)))
            | inr dropped ↦
                let s' = R.delete (R.delete w.store (payload v)) (manifest v) in
                rw (other, dropped)
                  (carry_out-Reach vs (record w { store = s' }) h.1
                    ((grind (arith, R.get-delete_ne)) ∙ at_b) (next r (discard v old)))
          ]
    ]

  -- Retention for a version that is not above the active one is a run of the step relation, in which
  -- only versions older than the active one are given a time to live or discarded; and the
  -- version itself is not found by the scan or has no time to live afterwards.
  pub retention-Reach :
      (a count : ℕ) (scanned : List ℕ) (b : ℕ) (w : Site R C)
      → a ≤ b
      → R.get w.store active ≡ some (number b)
      → let w' = carry_out R C (retention a count scanned) w in
        Reach R C w w' × ((any (λ v. nat_eq v a) scanned ≡ false) ⊎ (¬ IsIn R C a w'.aging))
  unfolding retention
  retention-Reach a count scanned b w above at_b =
      let published = sort_down (up_to a scanned) in
      (
        carry_out-Reach a (take count published) b above published w
            (sort_down-AreUpTo a (up_to a scanned) (up_to-AreUpTo a scanned)) at_b here,
        retention-IsPersistent R C a count scanned w,
      )
