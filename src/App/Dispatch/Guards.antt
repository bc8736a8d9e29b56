-- ===== src/App/Dispatch/Guards.antt =====
-- What holds after a call and after the two guards at the head of a round, whatever they answer.
use mixapi.Shared.{Bool, true, false, some, Result, ok, err, Option-cases, inl, inr}
use mixapi.Shared.Int.{ℤ}
use mixapi.Errors.{MixApiError}
use mixapi.Exec.{Exec}
use mixapi.Models.{ProviderModel}
use mixapi.Redis.{Redis}
use mixapi.Runtime.Quota.{QuotaKey, reserve_concurrency, reserve_connection_requests}
use mixapi.App.Dispatch.{
  FailedAttempt, Gateway, Progress, Round, raised, next, World, Step, then_do, slot_of, quota_of,
  reserve_slot, reserve_quota, on_quota, attempt_of, add_attempt,
}

module _ (R : Redis QuotaKey ℤ) (G : Gateway) where
  module _ {A : Type 0} (Post : Round A × World R G → Type 0) where
    pub then_do_rule :
        {B : Type 0} (m : Exec (World R G) B) (k : B → Step R G A) (w : World R G)
        → ((e : MixApiError) (w' : World R G) → Post (raised e, w'))
        → ((b : B) (w' : World R G) → Post (k b w'))
        → Post (then_do R G m k w)
    then_do_rule {B} m k w bad good = go (m w).0 (m w).1
      where
        go :
            (r : Result MixApiError B) (w' : World R G)
            → Post (elim r [ ok a ↦ k a w' | err e ↦ (raised e, w') ])
        go (ok a) w' = good a w'
        go (err e) w' = bad e w'

    accepted_rule :
        (rest : Step R G A) (p : Progress) (a : FailedAttempt) (accepted : Bool) (w : World R G)
        → ((w' : World R G) → Post (next (add_attempt a p), w'))
        → ((w' : World R G) → Post (rest w'))
        → Post (elim accepted [ true ↦ rest w | false ↦ (next (add_attempt a p), w) ])
    accepted_rule rest p a true w refused run = run w
    accepted_rule rest p a false w refused run = refused w

    quota_rule :
        (c : ProviderModel) (p : Progress) (m : Step R G A) (w : World R G)
        → ((e : MixApiError) (w' : World R G) → Post (raised e, w'))
        → ((a : FailedAttempt) (w' : World R G) → Post (next (add_attempt a p), w'))
        → ((w' : World R G) → Post (m w'))
        → Post (reserve_quota R G c p m w)
    unfolding reserve_quota
    quota_rule c p m w bad refused run = elim (Option-cases (quota_of c)) [
      | inl free ↦ rw (free, reserve_quota) (run w)
      | inr (s, taken) ↦
          rw (taken, reserve_quota)
            (then_do_rule (on_quota R G (reserve_connection_requests R s.0 (some s.1))) _ w bad
              (λ b w'.
                accepted_rule m p (attempt_of c "request_quota_exceeded") b w' (refused _) run))
    ]

    -- The guards of a candidate: a raise, a refusal, or the rest.
    pub guards_rule :
        (c : ProviderModel) (p : Progress) (m : Step R G A) (w : World R G)
        → ((e : MixApiError) (w' : World R G) → Post (raised e, w'))
        → ((a : FailedAttempt) (w' : World R G) → Post (next (add_attempt a p), w'))
        → ((w' : World R G) → Post (m w'))
        → Post (reserve_slot R G c p (reserve_quota R G c p m) w)
    unfolding reserve_slot
    guards_rule c p m w bad refused run =
        let rest = λ (w' : World R G). quota_rule c p m w' bad refused run in
        elim (Option-cases (slot_of c)) [
          | inl free ↦ rw (free, reserve_slot) (rest w)
          | inr (s, taken) ↦
              rw (taken, reserve_slot)
                (then_do_rule (on_quota R G (reserve_concurrency R s.0 (some s.1))) _ w bad (λ b w'.
                  accepted_rule (reserve_quota R G c p m) p
                    (attempt_of c "concurrency_limit_exceeded") b w' (refused _) rest))
        ]
