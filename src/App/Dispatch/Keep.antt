-- ===== src/App/Dispatch/Keep.antt =====
-- The slots of a response request (mixapi/app.py): the candidate that answers keeps its slot.
use mixapi.Shared.{
  ◌∙◌, ℕ, zero, suc, ◌≡◌, refl, Option, none, some, List, String, Result, ok, err, if◌then◌else◌,
  Bool-cases, inl, inr, All, is_some,
}
use mixapi.Shared.Int.{ℤ}
use mixapi.Errors.{MixApiError}
use mixapi.Exec.{Exec}
use mixapi.Json.{Fields}
use mixapi.Models.{ProviderModel}
use mixapi.Redis.{Redis, Conn}
use mixapi.Runtime.Quota.{QuotaKey}
use mixapi.App.Dispatch.{
  AdapterResponse, ValidationFailure, DispatchError, all_candidates_failed, service_error, Gateway,
  Answer, answered, failed, Progress, start, Round, returned, raised, next, World, Step, then_do,
  note_success, note_failure, ResponseDispatchOutcome, add_attempt,
}
use mixapi.App.Dispatch.Loops.{
  add_billable, take_answer, give_up, judge, dispatches, respond, dispatch_response_with_fallback,
}
use mixapi.App.Dispatch.Rule.{Goes, try_all_rule}
use mixapi.App.Dispatch.Slots.{Taken}
use mixapi.StructuredOutput.{response_schema}
use mixapi.App.Dispatch.Release.{
  IsPlain, taken_by, guard_rule, note_success_quota, note_failure_quota, release_slot_lem,
}

module _ (R : Redis QuotaKey ℤ) (G : Gateway) where
  -- What the requests to one candidate leave: the quota as it was, and an outcome of that candidate.
  abbrev Served : ProviderModel → Conn R.State → Round ResponseDispatchOutcome × World R G → Type 0
  Served c q (returned o, w) = (w.quota ≡ q) × (o.selected_candidate ≡ c)
  Served c q (raised e, w) = w.quota ≡ q
  Served c q (next p, w) = w.quota ≡ q

  then_do-Served :
      {A : Type 0} (c : ProviderModel) (q : Conn R.State) (m : Exec (World R G) A)
      (k : A → Step R G ResponseDispatchOutcome) (w : World R G)
      → (m w).1.quota ≡ q
      → ((a : A) (w' : World R G) → w'.quota ≡ q → Served c q (k a w'))
      → Served c q (then_do R G m k w)
  then_do-Served c q m k w same rest = go (m w).0 (m w).1 same
    where
      go :
          (r : Result MixApiError _) (w' : World R G)
          → w'.quota ≡ q
          → Served c q (elim r [ ok a ↦ k a w' | err e ↦ (raised e, w') ])
      go (ok a) w' e = rest a w' e
      go (err x) w' e = e

  judge-Served :
      (schema : Option Fields) (c : ProviderModel) (q : Conn R.State) (response : AdapterResponse)
      (p : Progress) (retry : List ValidationFailure → Progress → Step R G ResponseDispatchOutcome)
      (w : World R G)
      → w.quota ≡ q
      → ((fs : List ValidationFailure) (p' : Progress) → Served c q (retry fs p' w))
      → Served c q (judge R G schema c response p retry w)
  unfolding judge
  judge-Served none c q response p retry w same again = (same, refl)
  judge-Served (some s) c q response p retry w same again =
      elim (Bool-cases (G.validate_output response.output_text s).valid) [
        | inl good ↦ rw (good, judge) (same, refl)
        | inr bad ↦ rw (bad, judge) (again _ _)
      ]

  take_answer-Served :
      (schema : Option Fields) (c : ProviderModel) (q : Conn R.State) (p : Progress)
      (retry : List ValidationFailure → Progress → Step R G ResponseDispatchOutcome)
      (answer : Answer) (w : World R G)
      → w.quota ≡ q
      → ((fs : List ValidationFailure) (p' : Progress) (w' : World R G)
          → w'.quota ≡ q
          → Served c q (retry fs p' w'))
      → Served c q (take_answer R G schema c p retry answer w)
  unfolding take_answer
  take_answer-Served schema c q p retry (answered response) w same again =
      then_do-Served c q (note_success R G c)
        (λ _. judge R G schema c response (add_billable R G c response p) retry) w
        (note_success_quota R G c w ∙ same)
        (λ _ w' e.
          judge-Served schema c q response (add_billable R G c response p) retry w' e
            (λ fs p'. again fs p' w' e))
  take_answer-Served schema c q p retry (failed provider model reason) w same again =
      then_do-Served c q (note_failure R G provider model reason)
        (λ _ w. (
          next (add_attempt (record { provider = provider; model = model; reason = reason }) p),
          w,
        ))
        w (note_failure_quota R G provider model reason w ∙ same) (λ _ w' e. e)

  dispatches-Served :
      (body : Fields) (schema : Option Fields) (c : ProviderModel) (q : Conn R.State) (left : ℕ)
      (request : Fields) (p : Progress) (w : World R G)
      → w.quota ≡ q
      → Served c q (dispatches R G body schema c left request p w)
  unfolding dispatches
  dispatches-Served body schema c q zero request p w same = same
  dispatches-Served body schema c q (suc left) request p w same =
      let (answer, env') = G.dispatch_response request c w.env in
      take_answer-Served schema c q p
        (λ failures. dispatches R G body schema c left (G.corrective_request body failures)) answer
        (record w { env = env' }) same
        (λ fs p' w' e.
          dispatches-Served body schema c q left (G.corrective_request body fs) p' w' e)

  -- The slots after a response request: those of before when every candidate has failed, and one
  -- more for the connection of the candidate that answered.
  abbrev pub Kept : (String → ℕ) → Result DispatchError ResponseDispatchOutcome × World R G → Type 0
  Kept f (ok o, w) = Taken R (taken_by o.selected_candidate f) w.quota
  Kept f (err (all_candidates_failed attempts billed failures), w) = Taken R f w.quota
  Kept f (err (service_error e), w) = Unit

  give_up-Kept :
      (c : ProviderModel) (f : String → ℕ) (r : Round ResponseDispatchOutcome) (w : World R G)
      → (q : Conn R.State) → Taken R (taken_by c f) q
      → Served c q (r, w)
      → Goes R G (λ p w. Taken R f w.quota) (Kept f) (give_up R G c (λ _. (r, w)) w)
  unfolding give_up
  give_up-Kept c f (returned o) w q t served = rw (served.0, served.1) t
  give_up-Kept c f (raised e) w q t served = tt
  give_up-Kept c f (next p) w q t served =
      let (done, after) = release_slot_lem R G c f w (rw served t) in rw (then_do, done) after

  respond-Kept :
      (body : Fields) (c : ProviderModel) (p : Progress) (f : String → ℕ) (w : World R G)
      → IsPlain c
      → Taken R f w.quota
      → Goes R G (λ p w. Taken R f w.quota) (Kept f) (respond R G body c p w)
  unfolding respond give_up
  respond-Kept body c p f w plain t =
      let schema = response_schema body in
      let rounds : ℕ = if is_some schema then 2 else 1 in
      let m = dispatches R G body schema c rounds body p in
      guard_rule R G (Goes R G (λ p w. Taken R f w.quota) (Kept f)) c p (give_up R G c m) f w plain
        (λ p' w' t'. t')
        (λ w' t'.
          give_up-Kept c f (m w').0 (m w').1 w'.quota t'
            (dispatches-Served body schema c w'.quota rounds body p w' refl))
        t

  -- A response request gives back the slots of every candidate that fails, and keeps the slot of the
  -- one that answers: after a success its connection has one slot more taken than before. This is
  -- for candidates with a positive limit and no request quota; nothing is said of a dispatch that
  -- ends by a service's error.
  pub dispatch_response-Kept :
      (body : Fields) (cs : List ProviderModel) (f : String → ℕ) (w : World R G)
      → All IsPlain cs
      → Taken R f w.quota
      → Kept f (dispatch_response_with_fallback R G body cs w)
  unfolding dispatch_response_with_fallback
  dispatch_response-Kept body cs f w plain t =
      try_all_rule R G (λ _ p w. Taken R f w.quota) (Kept f) IsPlain (respond R G body)
        (λ c _ p w fits t'. respond-Kept body c p f w fits t') (λ p w t'. t') cs start w plain t
