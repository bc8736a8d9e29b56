-- ===== src/App/Dispatch/Release.antt =====
-- The slots of the guards, and those of an embedding request (mixapi/app.py).
use mathlib.Core.Path.{fun_ext}
use mixapi.Shared.{
  ◌∙◌, ℕ, zero, suc, ◌≡◌, refl, ap, true, false, none, some, List, String, arith, ok, Bool-cases,
  Option-cases, inl, inr, All, ltb,
}
use mixapi.Shared.Int.{ℤ, pos, negsuc, ◌≤ℤ◌}
use mixapi.Json.{Fields}
use mixapi.Models.{ProviderModel}
use mixapi.Redis.{Redis}
use mixapi.Runtime.Quota.{QuotaKey, reserve_concurrency}
use mixapi.App.Dispatch.{
  Gateway, Answer, answered, failed, Progress, start, Round, returned, raised, next, World, Step,
  then_do, slot_of, quota_of, release_slot, reserve_slot, reserve_quota, note_success, note_failure,
  attempt_of, add_attempt,
}
use mixapi.App.Dispatch.Loops.{note_embedding, finally, embed, dispatch_embedding_with_fallback}
use mixapi.App.Dispatch.Rule.{Goes, try_all_rule}
use mixapi.App.Dispatch.Slots.{bump, lower, Taken, reserve-Taken, release-Taken, release_answer}

-- A candidate whose limit, if it has one, is positive, and that has no request quota.
pub record IsPlain (c : ProviderModel) : Type 0 where
  pub positive :
      (connection : String) (limit : ℤ) → slot_of c ≡ some (connection, limit) → pos 1 ≤ℤ limit
  pub no_quota : quota_of c ≡ none

-- The slots with the one that a candidate takes.
abbrev pub taken_by : ProviderModel → (String → ℕ) → String → ℕ
taken_by c f = elim (slot_of c) [ none ↦ f | some (connection, _) ↦ bump connection f ]

lower-bump : (connection : String) (f : String → ℕ) → lower connection (bump connection f) ≡ f
lower-bump connection f = fun_ext (λ x. ground arith)

-- A positive integer is a successor.
positive_cases : (z : ℤ) → pos 1 ≤ℤ z → (n : ℕ) × (z ≡ pos (suc n))
positive_cases (pos zero) h = absurd (omega arith)
positive_cases (pos (suc n)) h = (n, refl)
positive_cases (negsuc n) h = absurd (omega arith)

module _ (R : Redis QuotaKey ℤ) (G : Gateway) where
  -- The guard of a candidate with a slot, by what the quota service answers.
  module _ {A : Type 0} (c : ProviderModel) (p : Progress) (m : Step R G A) (w : World R G)
      {connection : String} {limit : ℤ} (taken : slot_of c ≡ some (connection, limit)) where
    reserve_slot_granted :
        (reserve_concurrency R connection (some limit) w.quota).0 ≡ ok true
        → reserve_slot R G c p m w
          ≡ m (record w { quota = (reserve_concurrency R connection (some limit) w.quota).1 })
    unfolding reserve_slot
    reserve_slot_granted e = rw (taken, reserve_slot, then_do, e)

    reserve_slot_refused :
        (reserve_concurrency R connection (some limit) w.quota).0 ≡ ok false
        → reserve_slot R G c p m w ≡ (
          next (add_attempt (attempt_of c "concurrency_limit_exceeded") p),
          record w { quota = (reserve_concurrency R connection (some limit) w.quota).1 },
        )
    unfolding reserve_slot
    reserve_slot_refused e = rw (taken, reserve_slot, then_do, e)

  -- What holds after the guards: of a candidate that is refused, and of what runs with its slot.
  pub guard_rule :
      {A : Type 0} (Post : Round A × World R G → Type 0) (c : ProviderModel) (p : Progress)
      (m : Step R G A) (f : String → ℕ) (w : World R G)
      → IsPlain c
      → ((p' : Progress) (w' : World R G) → Taken R f w'.quota → Post (next p', w'))
      → ((w' : World R G) → Taken R (taken_by c f) w'.quota → Post (m w'))
      → Taken R f w.quota
      → Post (reserve_slot R G c p (reserve_quota R G c p m) w)
  unfolding reserve_slot reserve_quota
  guard_rule Post c p m f w plain refused run t = elim (Option-cases (slot_of c)) [
    | inl free ↦
        rw (free, reserve_slot, plain.no_quota, reserve_quota) (run w (rw (free, taken_by) t))
    | inr (s, taken) ↦
        let (n, positive) = positive_cases s.1 (plain.positive s.0 s.1 taken) in
        let slot : slot_of c ≡ some (s.0, pos (suc n)) = taken ∙ ap (λ l. some (s.0, l)) positive in
        let (answer, after) = reserve-Taken R s.0 n f w.quota t in
        elim (Bool-cases (ltb (f s.0) (suc n))) [
          | inl granted ↦
              rw (reserve_slot_granted c p (reserve_quota R G c p m) w slot (rw granted at answer))
                (rw (plain.no_quota, reserve_quota)
                  (run _ (rw (taken, taken_by) (rw granted at after))))
          | inr full ↦
              rw (reserve_slot_refused c p (reserve_quota R G c p m) w slot (rw full at answer))
                (refused _ _ (rw full at after))
        ]
  ]

  -- The services beside the quota leave its state alone.
  pub note_success_quota :
      (c : ProviderModel) (w : World R G) → (note_success R G c w).1.quota ≡ w.quota
  unfolding note_success
  note_success_quota c w = ground arith

  pub note_failure_quota :
      (provider model reason : String) (w : World R G)
      → (note_failure R G provider model reason w).1.quota ≡ w.quota
  unfolding note_failure
  note_failure_quota provider model reason w = ground arith

  -- The release of a candidate's slot succeeds, and takes it off the count.
  pub release_slot_lem :
      (c : ProviderModel) (f : String → ℕ) (w : World R G)
      → Taken R (taken_by c f) w.quota
      → let (r, w') = release_slot R G c w in (r ≡ ok tt) × Taken R f w'.quota
  unfolding release_slot
  release_slot_lem c f w t = elim (Option-cases (slot_of c)) [
    | inl free ↦ rw (free, release_slot) (refl, rw (free, taken_by) at t)
    | inr (s, taken) ↦
        let t' = rw (taken, taken_by) at t in
        rw (taken, release_slot)
          (
            release_answer R s.0 w.quota t'.up,
            rw (lower-bump s.0 f) at (release-Taken R s.0 (bump s.0 f) w.quota t'),
          )
  ]

  pub note_embedding_quota :
      (c : ProviderModel) (p : Progress) (answer : Answer) (w : World R G)
      → (note_embedding R G c p answer w).1.quota ≡ w.quota
  unfolding note_embedding
  note_embedding_quota c p (answered response) w = ground (arith, note_success_quota c w)
  note_embedding_quota c p (failed provider model reason) w =
      ground (arith, note_failure_quota provider model reason w)

  embed-Taken :
      (body : Fields) (c : ProviderModel) (p : Progress) (f : String → ℕ) (w : World R G)
      → IsPlain c
      → Taken R f w.quota
      → Taken R f (embed R G body c p w).1.quota
  unfolding embed finally
  embed-Taken body c p f w plain t =
      guard_rule (λ r. Taken R f r.1.quota) c p _ f w plain (λ p' w' t'. t')
        (λ w' t'.
          let (answer, env') = G.dispatch_embedding body c w'.env in
          let inner = note_embedding R G c p answer (record w' { env = env' }) in
          let same = note_embedding_quota c p answer (record w' { env = env' }) in
          let (done, after) = release_slot_lem c f inner.1 (rw same t') in rw (then_do, done) after)
        t

  Taken-Goes :
      {A : Type 0} (f : String → ℕ) (r : Round A) (w : World R G)
      → Taken R f w.quota
      → Goes R G (λ p w. Taken R f w.quota) (λ x. Taken R f x.1.quota) (r, w)
  Taken-Goes f (returned a) w t = t
  Taken-Goes f (raised e) w t = t
  Taken-Goes f (next p) w t = t

  -- An embedding request gives back every slot that it takes, whether a provider answers, all of
  -- them fail, or a service raises; this is for candidates with a positive limit and no request quota.
  pub embedding_slots_restored :
      (body : Fields) (cs : List ProviderModel) (f : String → ℕ) (w : World R G)
      → All IsPlain cs
      → Taken R f w.quota
      → Taken R f (dispatch_embedding_with_fallback R G body cs w).1.quota
  unfolding dispatch_embedding_with_fallback
  embedding_slots_restored body cs f w plain t =
      try_all_rule R G (λ _ p w. Taken R f w.quota) (λ x. Taken R f x.1.quota) IsPlain
        (embed R G body) (λ c _ p w fits t'. Taken-Goes f _ _ (embed-Taken body c p f w fits t'))
        (λ p w t'. t') cs start w plain t
