-- ===== src/App/Dispatch/Outcome.antt =====
-- What a response dispatch returns and bills (mixapi/app.py).
use mixapi.Shared.{
  ℕ, zero, suc, ◌+◌, ◌*◌, ◌≤◌, ◌≡◌, refl, true, Option, none, some, List, [], ◌∷◌, ◌++◌, String,
  arith, Result, ok, err, if◌then◌else◌, Bool-cases, inl, inr, All, All-append, length,
  length-append, is_some,
}
use mixapi.Shared.Int.{ℤ}
use mixapi.Json.{Fields}
use mixapi.Models.{ProviderModel}
use mixapi.Redis.{Redis}
use mixapi.StructuredOutput.{response_schema}
use mixapi.Runtime.Quota.{QuotaKey}
use mixapi.App.Dispatch.{
  AdapterResponse, BillableDispatch, ValidationFailure, DispatchError, all_candidates_failed,
  service_error, Gateway, Answer, answered, failed, Progress, start, Round, returned, raised, next,
  World, Step, note_success, note_failure, ResponseDispatchOutcome, release_slot, add_attempt,
}
use mixapi.App.Dispatch.Loops.{
  outcome_of, add_billable, take_answer, give_up, judge, dispatches, respond,
  dispatch_response_with_fallback,
}
use mixapi.App.Dispatch.Guards.{then_do_rule, guards_rule}
use mixapi.App.Dispatch.Rule.{Goes, try_all_rule}

module _ (R : Redis QuotaKey ℤ) (G : Gateway) where
  -- Against the schema of the request, if it has one.
  abbrev pub FitsSchema : Option Fields → String → Type 0
  FitsSchema none text = Unit
  FitsSchema (some s) text = (G.validate_output text s).valid ≡ true

  module _ (Q : ProviderModel → Type 0) where
    -- Every dispatch that is billed went to a candidate of the list.
    abbrev pub AllFrom : List BillableDispatch → Type 0
    AllFrom ds = All (λ d. Q d.candidate) ds

    -- An outcome is a candidate's answer that fits the schema, it is the last dispatch that is
    -- billed, and at most `bound` are.
    pub record IsSound (schema : Option Fields) (bound : ℕ) (o : ResponseDispatchOutcome)
        : Type 0 where
      pub selected : Q o.selected_candidate
      pub fits : FitsSchema schema o.response.output_text
      pub earlier : List BillableDispatch
      pub billed :
          o.billable_dispatches
          ≡ earlier ++ record { candidate = o.selected_candidate; response = o.response } ∷ []
      pub all_from : AllFrom o.billable_dispatches
      pub bounded : length o.billable_dispatches ≤ bound

    abbrev pub IsOpen : ℕ → Progress → Type 0
    IsOpen bound p = AllFrom p.billable_dispatches × (length p.billable_dispatches ≤ bound)

    abbrev Runs : Option Fields → ℕ → Round ResponseDispatchOutcome × World R G → Type 0
    Runs schema bound (returned o, w) = IsSound schema bound o
    Runs schema bound (raised e, w) = Unit
    Runs schema bound (next p, w) = IsOpen bound p

    module _ (c : ProviderModel) (bound : ℕ) (q : Q c) where
      outcome_of-IsSound :
          (schema : Option Fields) (response : AdapterResponse) (p : Progress)
          → IsOpen bound (add_billable R G c response p)
          → FitsSchema schema response.output_text
          → IsSound schema bound (outcome_of R G c response (add_billable R G c response p))
      outcome_of-IsSound schema response p o fits = record {
        selected = q;
        fits = fits;
        earlier = p.billable_dispatches;
        billed = refl;
        all_from = o.0;
        bounded = o.1;
      }

      judge-Runs :
          (schema : Option Fields) (response : AdapterResponse) (p : Progress)
          (retry : List ValidationFailure → Progress → Step R G ResponseDispatchOutcome)
          (w : World R G)
          → IsOpen bound (add_billable R G c response p)
          → ((fs : List ValidationFailure) (p' : Progress)
              → p'.billable_dispatches ≡ (add_billable R G c response p).billable_dispatches
              → Runs schema bound (retry fs p' w))
          → Runs schema bound (judge R G schema c response (add_billable R G c response p) retry w)
      unfolding judge
      judge-Runs none response p retry w o again = outcome_of-IsSound none response p o tt
      judge-Runs (some s) response p retry w o again =
          elim (Bool-cases (G.validate_output response.output_text s).valid) [
            | inl good ↦ rw (good, judge) (outcome_of-IsSound (some s) response p o good)
            | inr bad ↦ rw (bad, judge) (again _ _ refl)
          ]

      add_billable-IsOpen :
          (response : AdapterResponse) (p : Progress)
          → AllFrom p.billable_dispatches
          → length p.billable_dispatches + 1 ≤ bound
          → IsOpen bound (add_billable R G c response p)
      add_billable-IsOpen response p from less = (
        All-append (λ d. Q d.candidate) p.billable_dispatches _ from (q, tt),
        rw
            (length-append p.billable_dispatches
              (record { candidate = c; response = response } ∷ []))
            (omega arith),
      )

      take_answer-Runs :
          (schema : Option Fields) (p : Progress)
          (retry : List ValidationFailure → Progress → Step R G ResponseDispatchOutcome)
          (answer : Answer) (w : World R G)
          → AllFrom p.billable_dispatches
          → length p.billable_dispatches + 1 ≤ bound
          → ((fs : List ValidationFailure) (p' : Progress) (w' : World R G)
              → AllFrom p'.billable_dispatches
              → length p'.billable_dispatches ≡ length p.billable_dispatches + 1
              → Runs schema bound (retry fs p' w'))
          → Runs schema bound (take_answer R G schema c p retry answer w)
      unfolding take_answer
      take_answer-Runs schema p retry (failed provider model reason) w from less again =
          then_do_rule R G (Runs schema bound) (note_failure R G provider model reason)
            (λ _ w. (
              next (add_attempt (record { provider = provider; model = model; reason = reason }) p),
              w,
            ))
            w (λ e w'. tt) (λ _ w'. (from, omega arith))
      take_answer-Runs schema p retry (answered response) w from less again =
          let o = add_billable-IsOpen response p from less in
          then_do_rule R G (Runs schema bound) (note_success R G c)
            (λ _. judge R G schema c response (add_billable R G c response p) retry) w (λ e w'. tt)
            (λ _ w'. judge-Runs schema response p retry w' o (λ fs p' same.
              again fs p' w' (rw same o.0) (
                rw same (
                  length-append p.billable_dispatches
                    (record { candidate = c; response = response } ∷ [])))))

      dispatches-Runs :
          (body : Fields) (schema : Option Fields) (left : ℕ) (request : Fields) (p : Progress)
          (w : World R G)
          → AllFrom p.billable_dispatches
          → length p.billable_dispatches + left ≤ bound
          → Runs schema bound (dispatches R G body schema c left request p w)
      unfolding dispatches
      dispatches-Runs body schema zero request p w from less = (from, omega arith)
      dispatches-Runs body schema (suc left) request p w from less =
          let (answer, env') = G.dispatch_response request c w.env in
          take_answer-Runs schema p
            (λ fs. dispatches R G body schema c left (G.corrective_request body fs)) answer
            (record w { env = env' }) from (omega arith)
            (λ fs p' w' from' count.
              dispatches-Runs body schema left (G.corrective_request body fs) p' w' from'
                (omega arith))

    -- Over all candidates: two dispatches are left for each one that has not had its turn.
    abbrev Billed : ℕ → List ProviderModel → Progress → World R G → Type 0
    Billed bound cs p w =
        AllFrom p.billable_dispatches × (length p.billable_dispatches + 2 * length cs ≤ bound)

    -- What a dispatch returns, by how it ends.
    abbrev pub IsAccounted :
        Option Fields → ℕ → Result DispatchError ResponseDispatchOutcome × World R G → Type 0
    IsAccounted schema bound (ok o, w) = IsSound schema bound o
    IsAccounted schema bound (err (all_candidates_failed attempts billed failures), w) =
        AllFrom billed × (length billed ≤ bound)
    IsAccounted schema bound (err (service_error e), w) = Unit

    IsSound-mono :
        (schema : Option Fields) (a b : ℕ) (o : ResponseDispatchOutcome)
        → a ≤ b
        → IsSound schema a o
        → IsSound schema b o
    IsSound-mono schema a b o le h = record {
      selected = h.selected;
      fits = h.fits;
      earlier = h.earlier;
      billed = h.billed;
      all_from = h.all_from;
      bounded = omega (arith, h.bounded);
    }

    give_up-Runs :
        (schema : Option Fields) (n bound : ℕ) (cs : List ProviderModel) (c : ProviderModel)
        (r : Round ResponseDispatchOutcome) (w : World R G)
        → n + 2 * length cs ≤ bound
        → Runs schema n (r, w)
        → Goes R G (Billed bound cs) (IsAccounted schema bound) (give_up R G c (λ _. (r, w)) w)
    unfolding give_up
    give_up-Runs schema n bound cs c (returned o) w le h =
        IsSound-mono schema n bound o (omega arith) h
    give_up-Runs schema n bound cs c (raised e) w le h = tt
    give_up-Runs schema n bound cs c (next p) w le h =
        then_do_rule R G (Goes R G (Billed bound cs) (IsAccounted schema bound))
          (release_slot R G c) (λ _ w. (next p, w)) w (λ e w'. tt)
          (λ _ w'. (h.0, omega (arith, h.1)))

    respond-Runs :
        (body : Fields) (bound : ℕ) (c : ProviderModel) (cs : List ProviderModel) (p : Progress)
        (w : World R G)
        → Q c
        → Billed bound (c ∷ cs) p w
        → Goes R G
            (Billed bound cs)
            (IsAccounted (response_schema body) bound)
            (respond R G body c p w)
    unfolding respond give_up
    respond-Runs body bound c cs p w q b =
        let schema = response_schema body in
        let rounds : ℕ = if is_some schema then 2 else 1 in
        let m = dispatches R G body schema c rounds body p in
        let n = length p.billable_dispatches + 2 in
        guards_rule R G (Goes R G (Billed bound cs) (IsAccounted schema bound)) c p
          (give_up R G c m) w (λ e w'. tt) (λ a w'. (b.0, omega (arith, b.1)))
          (λ w'.
            give_up-Runs schema n bound cs c (m w').0 (m w').1 (omega (arith, b.1))
              (dispatches-Runs c n q body schema rounds body p w' b.0 (ground arith)))

    -- A returned response is an answer of one of the candidates, it fits the schema of the request as
    -- far as there is one, and its dispatch is billed last. Whether a candidate answers or all of them
    -- fail, only dispatches to the candidates are billed, at most twice as many as there are
    -- candidates. Nothing is said of a dispatch that ends by a service's error.
    pub dispatch_response-IsAccounted :
        (body : Fields) (cs : List ProviderModel) (w : World R G)
        → All Q cs
        → IsAccounted
            (response_schema body)
            (2 * length cs)
            (dispatch_response_with_fallback R G body cs w)
    unfolding dispatch_response_with_fallback
    dispatch_response-IsAccounted body cs w from =
        try_all_rule R G (Billed (2 * length cs))
          (IsAccounted (response_schema body) (2 * length cs)) Q (respond R G body)
          (λ c rest p w q b. respond-Runs body (2 * length cs) c rest p w q b)
          (λ p w b. (b.0, omega (arith, b.1))) cs start w from (tt, omega arith)
