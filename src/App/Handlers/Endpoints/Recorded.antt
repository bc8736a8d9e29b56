-- ===== src/App/Handlers/Endpoints/Recorded.antt =====
-- The record of an answer under the idempotency key of its request (mixapi/app.py).
use mathlib.Core.Path.{subst, subst⁻¹}
use mixapi.Shared.{
  ap, eq_iff, ◌≡◌, refl, ◌∙◌, true, false, Option, none, some, List, map, String, Result, ok, err,
  Bool-cases, inl, inr, ◌==◌, eq_refl,
}
use mixapi.Errors.{MixApiError}
use mixapi.Exec.{Exec, raise, pure, ◌>>=◌, ◌>>◌}
use mixapi.Exec.Ends.{Ends, Ends-returned, >>=-Ends}
use mixapi.Json.{Fields}
use mixapi.Redis.{Conn}
use mixapi.Runtime.Idempotency.{
  IdempotencyKey, Stored, unreadable, record_of, is_unset, key_of, check_record, store,
  store_script, store_state, replay_answer,
}
use mixapi.App.Dispatch.{FailedAttempt}
use mixapi.App.Handlers.{Services, Call, Desk, Payload, tried, on_ledger, on_records, checked}
use mixapi.App.Handlers.Opening.{Admitted, failed_decision}
use mixapi.App.Handlers.Closing.{succeeded_decision, reject, reply}
use mixapi.App.Handlers.Endpoints.{replay_or}
use mixapi.App.Handlers.Endpoints.Untouched.{Keeps}

module _ (P : Services) (endpoint : String) (q : Call) where
  abbrev pub slot : IdempotencyKey
  slot = (q.principal.tenant_id, endpoint, key_of q.idempotency_key)

  -- The key of the request is free, on a server that answers; and it holds an answer.
  abbrev pub IsReady : Conn P.idempotency.State → Type 0
  IsReady c = (c.reachable ≡ true) × (P.idempotency.get c.store slot ≡ none)

  abbrev pub IsRecorded : Fields → Conn P.idempotency.State → Type 0
  IsRecorded v c =
      (c.reachable ≡ true)
      × (P.idempotency.get c.store slot ≡ some (record_of (P.request_hash q.body) v))

  abbrev pub Records : Result MixApiError Fields × Desk P → Type 0
  Records = Ends (λ v d. IsRecorded v d.records) (λ _ _. Unit)

  any_end : {A : Type 0} (x : Result MixApiError A × Desk P) → Ends (λ _ _. Unit) (λ _ _. Unit) x
  any_end x = Ends-returned (λ _. Unit) x tt

  -- After a call that keeps the records.
  pub then_records :
      {A : Type 0} (m : Exec (Desk P) A) (f : A → Exec (Desk P) Fields) (d : Desk P)
      → Keeps P m
      → IsReady d.records
      → ((a : A) (d' : Desk P) → IsReady d'.records → Records (f a d'))
      → Records ((m >>= f) d)
  then_records m f d keeps ready =
      >>=-Ends (λ _ d'. IsReady d'.records) (λ v d'. IsRecorded v d'.records) (λ _ _. Unit) m f d
        (Ends-returned (λ d'. IsReady d'.records) (m d) (subst⁻¹ IsReady (keeps d) ready))

  -- A call that ends by a raise.
  raises :
      {A : Type 0} (m : Exec (Desk P) A) (e : MixApiError) (d : Desk P)
      → Records ((m >>= λ _. raise e) d)
  raises m e d =
      >>=-Ends (λ _ _. Unit) (λ v d'. IsRecorded v d'.records) (λ _ _. Unit) m (λ _. raise e) d
        (any_end (m d)) (λ _ _ _. tt)

  pub reject-Records :
      {A : Type 0} (m : Exec (Desk P) A) (admitted : Admitted) (failed : List FailedAttempt)
      (d : Desk P)
      → Records ((m >>= λ _. reject P endpoint q admitted failed) d)
  unfolding reject
  reject-Records m admitted failed d =
      >>=-Ends (λ _ _. Unit) (λ v d'. IsRecorded v d'.records) (λ _ _. Unit) m
        (λ _. reject P endpoint q admitted failed) d (any_end (m d))
        (λ _ d' _.
          raises
            (on_ledger P (
              P.ledger.record_decision
                (failed_decision endpoint q (map tried failed) admitted.rejected)))
            _ d')

  module _ (set : is_unset q.idempotency_key ≡ false) where
    stored :
        (v : Fields) (c : Conn P.idempotency.State)
        → IsReady c
        → IsRecorded v
            (store P.idempotency P.request_hash q.principal.tenant_id endpoint q.idempotency_key
              q.body v c).1
    unfolding store_script
    stored v c (up, free) =
        rw
          (store_state P.idempotency P.request_hash q.principal.tenant_id endpoint q.idempotency_key
            q.body v c set up)
          (up, rw (store_script, free) (P.idempotency.get-set_self c.store slot _))

    pub reply-Records :
        (admitted : Admitted) (payload : Payload) (d : Desk P)
        → IsReady d.records
        → Records (reply P endpoint q admitted payload d)
    unfolding reply
    reply-Records admitted payload d ready =
        let v = P.write_payload endpoint payload in
        let put = on_records P (
          store P.idempotency P.request_hash q.principal.tenant_id endpoint q.idempotency_key q.body
            v) in
        then_records
          (on_ledger P (
            P.ledger.record_decision (
              succeeded_decision endpoint q payload.failed_attempts payload.selected
                admitted.rejected)))
          (λ _. put >>= λ _. pure v) d (λ _. refl) ready
          (λ _ d' ready'.
            >>=-Ends (λ _ d''. IsRecorded v d''.records) (λ w d''. IsRecorded w d''.records)
              (λ _ _. Unit) put (λ _. pure v) d'
              (Ends-returned (λ d''. IsRecorded v d''.records) (put d')
                (stored v d'.records ready'))
              (λ _ _ h. h))

    -- What follows the read of the record.
    abbrev follow :
        Exec (Desk P) Fields
        → Desk P
        → Result MixApiError (Option Fields) × Conn P.idempotency.State
        → Result MixApiError Fields × Desk P
    follow m d x =
        (on_records P (λ _. x) >>= λ stored. elim stored [
          | some response ↦ pure response
          | none ↦ m
        ])
          d

    -- The stored answer, or what `m` records.
    pub replay_or-Records :
        (m : Exec (Desk P) Fields) (d : Desk P)
        → d.records.reachable ≡ true
        → (IsReady d.records → Records (m d))
        → Records (replay_or P endpoint q.principal.tenant_id q.idempotency_key q.body m d)
    unfolding replay_or
    replay_or-Records m d up fresh =
        subst⁻¹ (λ x. Records (follow m d x))
          (replay_answer P.idempotency P.request_hash q.principal.tenant_id endpoint
            q.idempotency_key q.body d.records set up)
          (go (P.idempotency.get d.records.store slot) refl)
      where
        go :
            (o : Option Stored)
            → P.idempotency.get d.records.store slot ≡ o
            → Records (follow m d (check_record P.idempotency P.request_hash q.body o, d.records))
        go none free = fresh (up, free)
        go (some unreadable) held = tt
        go (some (record_of h v)) held = elim (Bool-cases (h == P.request_hash q.body)) [
          | inl same ↦
              rw (check_record, same)
                (
                  up,
                  held ∙ ap (λ x. some (record_of x v)) ((eq_iff h (P.request_hash q.body)).0 same),
                )
          | inr other ↦ rw (check_record, other) tt
        ]

    -- A request whose answer is recorded is given it, and nothing else happens.
    replayed :
        (v : Fields) (m : Exec (Desk P) Fields) (d : Desk P)
        → IsRecorded v d.records
        → replay_or P endpoint q.principal.tenant_id q.idempotency_key q.body m d ≡ (ok v, d)
    unfolding replay_or
    replayed v m d (up, held) =
        subst⁻¹ (λ x. follow m d x ≡ (ok v, d))
          (replay_answer P.idempotency P.request_hash q.principal.tenant_id endpoint
            q.idempotency_key q.body d.records set up)
          (rw (held, check_record, eq_refl) refl)

    -- A handler: what is checked first, and the answer that is stored or a new one.
    abbrev pub handle :
        Result MixApiError (Unit {0})
        → String
        → Option String
        → Fields
        → Exec (Desk P) Fields
        → Exec (Desk P) Fields
    handle c tenant key body m = checked P c >> replay_or P endpoint tenant key body m

    abbrev pub this : Result MixApiError (Unit {0}) → Exec (Desk P) Fields → Exec (Desk P) Fields
    this c m = handle c q.principal.tenant_id q.idempotency_key q.body m

    pub handle_records :
        (c : Result MixApiError (Unit {0})) (m : Exec (Desk P) Fields) (d : Desk P)
        → d.records.reachable ≡ true
        → (c ≡ ok tt → (d' : Desk P) → IsReady d'.records → Records (m d'))
        → Records (this c m d)
    handle_records (ok tt) m d up fresh = replay_or-Records m d up (fresh refl d)
    handle_records (err e) m d up fresh = tt

    -- The handler again, where the records are as it has left them.
    pub handle_again :
        (c c' : Result MixApiError (Unit {0})) (tenant' : String) (key' : Option String)
        (body' : Fields) (m m' : Exec (Desk P) Fields) (v : Fields) (d d' later : Desk P)
        → Records (this c m d)
        → this c m d ≡ (ok v, d')
        → later.records ≡ d'.records
        → c' ≡ c
        → tenant' ≡ q.principal.tenant_id
        → key' ≡ q.idempotency_key
        → body' ≡ q.body
        → handle c' tenant' key' body' m' later ≡ (ok v, later)
    handle_again (ok tt) c' tenant' key' body' m m' v d d' later recorded gives same sc st sk sb =
        let held : IsRecorded v d'.records = subst Records gives recorded in
        rw (sc, st, sk, sb) (replayed v m' later (subst⁻¹ (IsRecorded v) same held))
    handle_again (err e) c' tenant' key' body' m m' v d d' later recorded gives same sc st sk sb =
        absurd (cc gives)
