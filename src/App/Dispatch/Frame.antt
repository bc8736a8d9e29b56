-- ===== src/App/Dispatch/Frame.antt =====
-- A dispatch changes the quota service only by the three calls about connections: what those calls
-- keep, a dispatch keeps, however it ends.
use mixapi.Shared.{
  ℕ, zero, suc, true, false, Bool, Option, none, some, List, [], ◌∷◌, String, Result, ok, err, All,
  Bool-cases, Option-cases, inl, inr, is_some, if◌then◌else◌,
}
use mixapi.Shared.Int.{ℤ}
use mixapi.Errors.{MixApiError}
use mixapi.Exec.{Exec}
use mixapi.Json.{Fields}
use mixapi.Models.{ProviderModel}
use mixapi.Redis.{Redis, Conn}
use mixapi.StructuredOutput.{response_schema}
use mixapi.Runtime.Quota.{
  QuotaKey, reserve_concurrency, release_concurrency, reserve_connection_requests,
}
use mixapi.App.Dispatch.{
  AdapterResponse, ValidationFailure, FailedAttempt, ResponseDispatchOutcome, Gateway, Answer,
  answered, failed, Progress, start, Round, returned, raised, next, World, Step, on_quota, then_do,
  slot_of, quota_of, release_slot, reserve_slot, reserve_quota, note_success, note_failure,
  attempt_of, add_attempt,
}
use mixapi.App.Dispatch.Loops.{
  try_all, give_up, finally, judge, take_answer, dispatches, respond,
  dispatch_response_with_fallback, note_embedding, embed, dispatch_embedding_with_fallback,
  add_billable,
}
use mixapi.App.Dispatch.Rule.{Goes, try_all_rule}
use mixapi.App.Dispatch.Release.{note_success_quota, note_failure_quota, note_embedding_quota}

module _ (R : Redis QuotaKey ℤ) (G : Gateway) (P : Conn R.State → Type 0)
    (slot_keeps : (connection : String) (limit : Option ℤ) (c : Conn R.State)
      → P c
      → P (reserve_concurrency R connection limit c).1)
    (request_keeps : (connection : String) (limit : Option ℤ) (c : Conn R.State)
      → P c
      → P (reserve_connection_requests R connection limit c).1)
    (release_keeps : (connection : String) (c : Conn R.State)
      → P c
      → P (release_concurrency R connection c).1) where
  abbrev Keeps : {X : Type 0} → (World R G → X × World R G) → Type 0
  Keeps m = (w : World R G) → P w.quota → P (m w).1.quota

  then_do-Keeps :
      {A B : Type 0} (m : Exec (World R G) A) (f : A → Step R G B)
      → Keeps m
      → ((a : A) → Keeps (f a))
      → Keeps (then_do R G m f)
  then_do-Keeps {A} {B} m f first rest w h = go (m w).0 (m w).1 (first w h)
    where
      go :
          (r : Result MixApiError A) (w' : World R G)
          → P w'.quota
          → P (then_do R G (λ _. (r, w')) f w).1.quota
      go (ok a) w' h' = rest a w' h'
      go (err e) w' h' = h'

  accepted-Keeps :
      {A : Type 0} (accepted : Bool) (a : FailedAttempt) (p : Progress) (rest : Step R G A)
      → Keeps rest
      → Keeps {X = Round A}
          (λ w. elim accepted [ true ↦ rest w | false ↦ (next (add_attempt a p), w) ])
  accepted-Keeps true a p rest k w h = k w h
  accepted-Keeps false a p rest k w h = h

  reserve_slot-Keeps :
      {A : Type 0} (c : ProviderModel) (p : Progress) (rest : Step R G A)
      → Keeps rest
      → Keeps (reserve_slot R G c p rest)
  unfolding reserve_slot
  reserve_slot-Keeps c p rest k w h = elim (Option-cases (slot_of c)) [
    | inl free ↦ rw (free, reserve_slot) (k w h)
    | inr (s, taken) ↦
        rw (taken, reserve_slot)
          (then_do-Keeps (on_quota R G (reserve_concurrency R s.0 (some s.1)))
            (λ accepted w'. elim accepted [
              | true ↦ rest w'
              | false ↦ (next (add_attempt (attempt_of c "concurrency_limit_exceeded") p), w')
            ])
            (λ w' h'. slot_keeps s.0 (some s.1) w'.quota h')
            (λ accepted.
              accepted-Keeps accepted (attempt_of c "concurrency_limit_exceeded") p rest k)
            w h)
  ]

  reserve_quota-Keeps :
      {A : Type 0} (c : ProviderModel) (p : Progress) (rest : Step R G A)
      → Keeps rest
      → Keeps (reserve_quota R G c p rest)
  unfolding reserve_quota
  reserve_quota-Keeps c p rest k w h = elim (Option-cases (quota_of c)) [
    | inl free ↦ rw (free, reserve_quota) (k w h)
    | inr (s, taken) ↦
        rw (taken, reserve_quota)
          (then_do-Keeps (on_quota R G (reserve_connection_requests R s.0 (some s.1)))
            (λ accepted w'. elim accepted [
              | true ↦ rest w'
              | false ↦ (next (add_attempt (attempt_of c "request_quota_exceeded") p), w')
            ])
            (λ w' h'. request_keeps s.0 (some s.1) w'.quota h')
            (λ accepted. accepted-Keeps accepted (attempt_of c "request_quota_exceeded") p rest k) w
            h)
  ]

  release_slot-Keeps : (c : ProviderModel) → Keeps (release_slot R G c)
  unfolding release_slot
  release_slot-Keeps c w h = elim (Option-cases (slot_of c)) [
    | inl free ↦ rw (free, release_slot) h
    | inr (s, taken) ↦ rw (taken, release_slot) (release_keeps s.0 w.quota h)
  ]

  finally-Keeps :
      {A : Type 0} (c : ProviderModel) (m : Step R G A) → Keeps m → Keeps (finally R G c m)
  unfolding finally
  finally-Keeps c m k w h =
      then_do-Keeps (release_slot R G c) (λ _ w'. ((m w).0, w')) (release_slot-Keeps c)
        (λ _ w' h'. h') (m w).1 (k w h)

  give_up-Keeps :
      {A : Type 0} (c : ProviderModel) (m : Step R G A) → Keeps m → Keeps (give_up R G c m)
  unfolding give_up
  give_up-Keeps {A} c m k w h = go (m w).0 (m w).1 (k w h)
    where
      go : (r : Round A) (w' : World R G) → P w'.quota → P (give_up R G c (λ _. (r, w')) w).1.quota
      go (returned a) w' h' = h'
      go (raised e) w' h' = h'
      go (next p) w' h' =
          then_do-Keeps (release_slot R G c) (λ _ w''. (next p, w'')) (release_slot-Keeps c)
            (λ _ w'' h''. h'') w' h'

  any_candidate : (cs : List ProviderModel) → All (λ _. Unit {0}) cs
  any_candidate [] = tt
  any_candidate (c ∷ cs) = (tt, any_candidate cs)

  Keeps-Goes :
      {A : Type 0} (r : Round A) (w : World R G)
      → P w.quota
      → Goes R G (λ p w. P w.quota) (λ x. P x.1.quota) (r, w)
  Keeps-Goes (returned a) w h = h
  Keeps-Goes (raised e) w h = h
  Keeps-Goes (next p) w h = h

  try_all-Keeps :
      {A : Type 0} (one : ProviderModel → Progress → Step R G A)
      → ((c : ProviderModel) (p : Progress) → Keeps (one c p))
      → (cs : List ProviderModel) (p : Progress) → Keeps (try_all R G one cs p)
  try_all-Keeps one k cs p w h =
      try_all_rule R G (λ _ p w. P w.quota) (λ x. P x.1.quota) (λ _. Unit) one
        (λ c _ p w fits h'. Keeps-Goes (one c p w).0 (one c p w).1 (k c p w h')) (λ p w h'. h') cs p
        w (any_candidate cs) h

  embed-Keeps : (body : Fields) (c : ProviderModel) (p : Progress) → Keeps (embed R G body c p)
  unfolding embed
  embed-Keeps body c p = reserve_slot-Keeps c p _ (
      reserve_quota-Keeps c p _ (λ w h.
        let (answer, env') = G.dispatch_embedding body c w.env in
        finally-Keeps c (note_embedding R G c p answer)
          (λ w' h'. rw (note_embedding_quota R G c p answer w') h') (record w { env = env' }) h))

  pub dispatch_embedding-Keeps :
      (body : Fields) (cs : List ProviderModel)
      → Keeps (dispatch_embedding_with_fallback R G body cs)
  unfolding dispatch_embedding_with_fallback
  dispatch_embedding-Keeps body cs = try_all-Keeps (embed R G body) (embed-Keeps body) cs start

  judge-Keeps :
      (schema : Option Fields) (c : ProviderModel) (response : AdapterResponse) (p : Progress)
      (retry : List ValidationFailure → Progress → Step R G ResponseDispatchOutcome)
      → ((failures : List ValidationFailure) (p' : Progress) → Keeps (retry failures p'))
      → Keeps (judge R G schema c response p retry)
  unfolding judge
  judge-Keeps none c response p retry k w h = h
  judge-Keeps (some s) c response p retry k w h =
      elim (Bool-cases ((G.validate_output response.output_text s).valid)) [
        | inl valid ↦ rw (judge, valid) h
        | inr invalid ↦ rw (judge, invalid) (k _ _ w h)
      ]

  take_answer-Keeps :
      (schema : Option Fields) (c : ProviderModel) (p : Progress)
      (retry : List ValidationFailure → Progress → Step R G ResponseDispatchOutcome)
      (answer : Answer)
      → ((failures : List ValidationFailure) (p' : Progress) → Keeps (retry failures p'))
      → Keeps (take_answer R G schema c p retry answer)
  unfolding take_answer
  take_answer-Keeps schema c p retry (answered response) k =
      then_do-Keeps (note_success R G c)
        (λ _. judge R G schema c response (add_billable R G c response p) retry)
        (λ w h. rw (note_success_quota R G c w) h)
        (λ _. judge-Keeps schema c response (add_billable R G c response p) retry k)
  take_answer-Keeps schema c p retry (failed provider model reason) k =
      then_do-Keeps (note_failure R G provider model reason)
        (λ _ w. (
          next (add_attempt (record { provider = provider; model = model; reason = reason }) p),
          w,
        ))
        (λ w h. rw (note_failure_quota R G provider model reason w) h) (λ _ w h. h)

  dispatches-Keeps :
      (body : Fields) (schema : Option Fields) (c : ProviderModel) (left : ℕ) (request : Fields)
      (p : Progress)
      → Keeps (dispatches R G body schema c left request p)
  unfolding dispatches
  dispatches-Keeps body schema c zero request p w h = h
  dispatches-Keeps body schema c (suc left) request p w h =
      let (answer, env') = G.dispatch_response request c w.env in
      take_answer-Keeps schema c p _ answer
        (λ failures. dispatches-Keeps body schema c left (G.corrective_request body failures))
        (record w { env = env' }) h

  respond-Keeps : (body : Fields) (c : ProviderModel) (p : Progress) → Keeps (respond R G body c p)
  unfolding respond
  respond-Keeps body c p =
      let schema = response_schema body in
      let rounds : ℕ = if is_some schema then 2 else 1 in
      reserve_slot-Keeps c p _ (
        reserve_quota-Keeps c p _ (
          give_up-Keeps c (dispatches R G body schema c rounds body p)
            (dispatches-Keeps body schema c rounds body p)))

  pub dispatch_response-Keeps :
      (body : Fields) (cs : List ProviderModel)
      → Keeps (dispatch_response_with_fallback R G body cs)
  unfolding dispatch_response_with_fallback
  dispatch_response-Keeps body cs = try_all-Keeps (respond R G body) (respond-Keeps body) cs start
