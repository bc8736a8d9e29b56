-- ===== src/App/Dispatch/Loops.antt =====
-- The two loops over the candidates: for responses, with a second request to a candidate whose
-- output does not fit the schema, and for embeddings.
use mixapi.Shared.{
  ℕ, zero, suc, true, false, Option, none, some, List, [], ◌∷◌, ◌++◌, Result, ok, err,
  if◌then◌else◌, is_some,
}
use mixapi.Shared.Int.{ℤ}
use mixapi.Json.{Fields}
use mixapi.Models.{ProviderModel}
use mixapi.Redis.{Redis}
use mixapi.Runtime.Quota.{QuotaKey}
use mixapi.StructuredOutput.{response_schema}
use mixapi.App.Dispatch.{
  AdapterResponse, ValidationFailure, ResponseDispatchOutcome, FailedAttempt, DispatchError,
  all_candidates_failed, service_error, Answer, answered, failed, Gateway, Progress, start,
  attempt_of, add_attempt, returned, raised, next, World, Step, then_do, release_slot, reserve_slot,
  reserve_quota, note_success, note_failure,
}

module _ (R : Redis QuotaKey ℤ) (G : Gateway) where
  -- The candidates in turn, until one returns or raises.
  unfoldable pub try_all :
      {A : Type 0}
      → (ProviderModel → Progress → Step R G A)
      → List ProviderModel
      → Progress
      → World R G
      → Result DispatchError A × World R G
  try_all one [] p w =
      (err (all_candidates_failed p.failed_attempts p.billable_dispatches p.validation_failures), w)
  try_all one (c ∷ cs) p w =
      let (r, w') = one c p w in
      elim r [
        | returned a ↦ (ok a, w')
        | raised e ↦ (err (service_error e), w')
        | next p' ↦ try_all one cs p' w'
      ]

  -- `_release_concurrency()` where a candidate is given up.
  unfoldable pub give_up : {A : Type 0} → ProviderModel → Step R G A → Step R G A
  unfolding release_slot
  give_up c m w =
      let (r, w') = m w in
      elim r [
        | returned a ↦ (returned a, w')
        | raised e ↦ (raised e, w')
        | next p ↦ then_do R G (release_slot R G c) (λ _ w. (next p, w)) w'
      ]

  -- `finally: _release_concurrency()`. An error of the release takes the place of what went before.
  unfoldable pub finally : {A : Type 0} → ProviderModel → Step R G A → Step R G A
  unfolding release_slot
  finally c m w = let (r, w') = m w in then_do R G (release_slot R G c) (λ _ w. (r, w)) w'

  abbrev pub add_billable : ProviderModel → AdapterResponse → Progress → Progress
  add_billable c response p = record p {
    billable_dispatches =
        p.billable_dispatches ++ record { candidate = c; response = response } ∷ [];
  }

  abbrev pub outcome_of : ProviderModel → AdapterResponse → Progress → ResponseDispatchOutcome
  outcome_of c response p = record {
    response = response;
    selected_candidate = c;
    failed_attempts = p.failed_attempts;
    billable_dispatches = p.billable_dispatches;
  }

  -- What an answer comes to: it is returned, or it does not fit the schema and `retry` goes on.
  unfoldable pub judge :
      Option Fields
      → ProviderModel
      → AdapterResponse
      → Progress
      → (List ValidationFailure → Progress → Step R G ResponseDispatchOutcome)
      → Step R G ResponseDispatchOutcome
  judge none c response p retry w = (returned (outcome_of c response p), w)
  judge (some s) c response p retry w =
      let v = G.validate_output response.output_text s in
      elim v.valid [
        | true ↦ (returned (outcome_of c response p), w)
        | false ↦
            retry v.failures
              (record (add_attempt (attempt_of c "schema_validation_failed") p) {
                validation_failures = v.failures;
              })
              w
      ]

  -- What follows a provider's answer to a response request: a failure ends the rounds (`break`).
  unfoldable pub take_answer :
      Option Fields
      → ProviderModel
      → Progress
      → (List ValidationFailure → Progress → Step R G ResponseDispatchOutcome)
      → Answer
      → Step R G ResponseDispatchOutcome
  unfolding note_success note_failure judge
  take_answer schema c p retry (answered response) =
      then_do R G (note_success R G c)
        (λ _. judge schema c response (add_billable c response p) retry)
  take_answer schema c p retry (failed provider model reason) =
      then_do R G (note_failure R G provider model reason) (λ _ w.
        (next (add_attempt (record { provider = provider; model = model; reason = reason }) p), w))

  -- `for dispatch_index in range(dispatch_count)`: the rounds that are left with one candidate. After
  -- the last round the corrected request is not used.
  unfoldable pub dispatches :
      Fields
      → Option Fields
      → ProviderModel
      → ℕ
      → Fields
      → Progress
      → Step R G ResponseDispatchOutcome
  unfolding take_answer
  dispatches body schema c zero request p w = (next p, w)
  dispatches body schema c (suc left) request p w =
      let (answer, env') = G.dispatch_response request c w.env in
      take_answer schema c p
        (λ failures. dispatches body schema c left (G.corrective_request body failures)) answer
        (record w { env = env' })

  -- One round of the loop over the candidates. A candidate that returns keeps its slot.
  unfoldable pub respond : Fields → ProviderModel → Progress → Step R G ResponseDispatchOutcome
  unfolding reserve_slot reserve_quota give_up dispatches
  respond body c p =
      let schema = response_schema body in
      reserve_slot R G c p (
        reserve_quota R G c p
          (give_up c (dispatches body schema c (if is_some schema then 2 else 1) body p)))

  unfoldable pub dispatch_response_with_fallback :
      Fields
      → List ProviderModel
      → World R G
      → Result DispatchError ResponseDispatchOutcome × World R G
  unfolding try_all respond
  dispatch_response_with_fallback body candidates = try_all (respond body) candidates start

  -- The inner `try` of an embedding request, after the provider's answer.
  unfoldable pub note_embedding :
      ProviderModel
      → Progress
      → Answer
      → Step R G (AdapterResponse × ProviderModel × List FailedAttempt)
  unfolding note_success note_failure
  note_embedding c p (answered response) =
      then_do R G (note_success R G c) (λ _ w. (returned (response, c, p.failed_attempts), w))
  note_embedding c p (failed provider model reason) =
      then_do R G (note_failure R G provider model reason) (λ _ w.
        (next (add_attempt (record { provider = provider; model = model; reason = reason }) p), w))

  -- One round of `_dispatch_embedding_with_fallback`: the slot is released whether the provider
  -- answers or fails, and before a raise (`finally`).
  unfoldable pub embed :
      Fields
      → ProviderModel
      → Progress
      → Step R G (AdapterResponse × ProviderModel × List FailedAttempt)
  unfolding reserve_slot reserve_quota note_embedding finally
  embed body c p = reserve_slot R G c p (
      reserve_quota R G c p (λ w.
        let (answer, env') = G.dispatch_embedding body c w.env in
        finally c (note_embedding c p answer) (record w { env = env' })))

  unfoldable pub dispatch_embedding_with_fallback :
      Fields
      → List ProviderModel
      → World R G
      → Result DispatchError (AdapterResponse × ProviderModel × List FailedAttempt) × World R G
  unfolding try_all embed
  dispatch_embedding_with_fallback body candidates = try_all (embed body) candidates start
