-- ===== src/Runtime/Snapshots/Persist.antt =====
-- The active version has no time to live after retention (mixapi/runtime/snapshots.py), which persists
-- it.
use mixapi.Shared.{
  ℕ, ◌≡◌, ◌⊎◌, inl, inr, List, [], ◌∷◌, any, map, arith, Bool-cases, true, false, ltb, leb, nat_eq,
}
use mixapi.Redis.{Redis}
use mixapi.Runtime.Snapshots.{
  Site, remove, payload, manifest, SnapshotKey, Value, Codec, up_to, insert_down, sort_down, take,
  action_of, retention, carry_out,
}
use mixapi.Runtime.Snapshots.History.{IsIn}

module _ (R : Redis SnapshotKey Value) (C : Codec) where
  pub remove-IsIn : (v u : ℕ) (vs : List ℕ) → IsIn R C u (remove v vs) → IsIn R C u vs
  unfolding remove
  remove-IsIn v u (w ∷ ws) i = elim (Bool-cases (nat_eq v w)) [
    | inl same ↦ inr (remove-IsIn v u ws (rw (same, remove) at i))
    | inr other ↦ elim (rw (other, remove) at i) [
      | inl at_w ↦ inl at_w
      | inr later ↦ inr (remove-IsIn v u ws later)
    ]
  ]
  remove-IsIn v u [] i = i

  remove_self : (a : ℕ) (vs : List ℕ) → IsIn R C a (remove a vs) → ⊥
  unfolding remove
  remove_self a [] i = i
  remove_self a (w ∷ ws) i = elim (Bool-cases (nat_eq a w)) [
    | inl same ↦ remove_self a ws (rw (same, remove) at i)
    | inr other ↦ elim (rw (other, remove) at i) [
      | inl at_w ↦ absurd (ground (arith, at_w, other))
      | inr later ↦ remove_self a ws later
    ]
  ]

  insert_down-IsIn :
      (u v : ℕ) (ws : List ℕ) → (u ≡ v) ⊎ IsIn R C u ws → IsIn R C u (insert_down v ws)
  unfolding insert_down
  insert_down-IsIn u v [] i = i
  insert_down-IsIn u v (w ∷ ws) i = elim (Bool-cases (ltb v w)) [
    | inr high ↦ rw (insert_down, high) i
    | inl low ↦
        rw (insert_down, low)
          (elim i [
            | inl at_v ↦ inr (insert_down-IsIn u v ws (inl at_v))
            | inr (inl at_w) ↦ inl at_w
            | inr (inr later) ↦ inr (insert_down-IsIn u v ws (inr later))
          ])
  ]

  sort_down-IsIn : (u : ℕ) (vs : List ℕ) → IsIn R C u vs → IsIn R C u (sort_down vs)
  unfolding sort_down
  sort_down-IsIn u [] i = i
  sort_down-IsIn u (v ∷ vs) (inl at_v) = insert_down-IsIn u v (sort_down vs) (inl at_v)
  sort_down-IsIn u (v ∷ vs) (inr i) =
      insert_down-IsIn u v (sort_down vs) (inr (sort_down-IsIn u vs i))

  up_to-IsIn : (a : ℕ) (vs : List ℕ) → IsIn R C a vs → IsIn R C a (up_to a vs)
  unfolding up_to
  up_to-IsIn a [] i = i
  up_to-IsIn a (v ∷ vs) i = elim (Bool-cases (leb v a)) [
    | inl low ↦
        rw (up_to, low) (elim i [ inl at_v ↦ inl at_v | inr later ↦ inr (up_to-IsIn a vs later) ])
    | inr high ↦
        rw (up_to, high)
          (elim i [
            | inl at_v ↦ absurd (ground (arith, at_v, high))
            | inr later ↦ up_to-IsIn a vs later
          ])
  ]

  module _ (a : ℕ) (retained : List ℕ) where
    -- The version `a` has no time to live.
    abbrev IsPersistent : Site R C → Type 0
    IsPersistent w = IsIn R C a w.aging → ⊥

    carry_out-IsPersistent :
        (vs : List ℕ) (w : Site R C)
        → IsIn R C a vs ⊎ IsPersistent w
        → IsPersistent (carry_out R C (map (action_of a retained) vs) w)
    unfolding carry_out
    carry_out-IsPersistent [] w (inl i) = absurd i
    carry_out-IsPersistent [] w (inr h) = h
    carry_out-IsPersistent (v ∷ vs) w h = elim (Bool-cases (nat_eq v a)) [
      | inl same ↦
          let is_a : v ≡ a = ground (arith, same) in
          rw same (
            carry_out-IsPersistent vs (record w { aging = remove v w.aging })
              (inr (rw is_a (remove_self a w.aging))))
      | inr other ↦
          let apart : a ≡ v → ⊥ = λ e. absurd (ground (arith, e, other)) in
          let later : IsIn R C a vs ⊎ IsPersistent w = elim h [
            | inl (inl at_v) ↦ absurd (apart at_v)
            | inl (inr i) ↦ inl i
            | inr p ↦ inr p
          ] in
          elim (Bool-cases (any (λ x. nat_eq x v) retained)) [
            | inl kept ↦
                rw (other, kept)
                  (carry_out-IsPersistent vs (record w { aging = v ∷ w.aging })
                    (elim later [
                      | inl i ↦ inl i
                      | inr p ↦ inr (λ i. elim i [ inl at_v ↦ apart at_v | inr i' ↦ p i' ])
                    ]))
            | inr dropped ↦
                rw (other, dropped)
                  (carry_out-IsPersistent vs
                    (record w { store = R.delete (R.delete w.store (payload v)) (manifest v) })
                    later)
          ]
    ]

  any-IsIn : (a : ℕ) (vs : List ℕ) → any (λ v. nat_eq v a) vs ≡ true → IsIn R C a vs
  any-IsIn a [] e = cc e
  any-IsIn a (v ∷ vs) e = elim (Bool-cases (nat_eq v a)) [
    | inl same ↦ inl (ground (arith, same))
    | inr other ↦ inr (any-IsIn a vs (rw other at e))
  ]

  -- The version that retention runs for is not found by the scan, or has no time to live afterwards.
  pub retention-IsPersistent :
      (a count : ℕ) (scanned : List ℕ) (w : Site R C)
      → (any (λ v. nat_eq v a) scanned ≡ false)
        ⊎ (¬ IsIn R C a (carry_out R C (retention a count scanned) w).aging)
  unfolding retention
  retention-IsPersistent a count scanned w =
      let published = sort_down (up_to a scanned) in
      elim (Bool-cases (any (λ v. nat_eq v a) scanned)) [
        | inr missing ↦ inl missing
        | inl found ↦ inr (
            carry_out-IsPersistent a (take count published) published w (
              inl (
                sort_down-IsIn a (up_to a scanned)
                  (up_to-IsIn a scanned (any-IsIn a scanned found)))))
      ]
