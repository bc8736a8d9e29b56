-- ===== src/Routing/Laws/Decision.antt =====
-- What `plan_route` promises.
use mathlib.Core.List.{Perm}
use mathlib.Core.List.Perm
use mixapi.Shared.{
  arith, ◌≡◌, refl, List, [], ◌∷◌, map, String, true, not, Option, none, some, if◌then◌else◌, All,
  is_some, ok, raise_if, or_raise, >>=-ok, or_raise-ok, raise_if-ok, ok_injective, ◌==◌,
}
use mixapi.Shared.Int.{◌≤ℤ◌}
use mixapi.Money.{Decimal}
use mixapi.Errors.{capability_unsupported, permission_denied}
use mixapi.Models.{ProviderModel, LogicalModel}
use mixapi.Routing.Requirements.{Objective, Requirements, rejection_reason}
use mixapi.Routing.Order.{
  Scored, Rejection, RouteDecision, Request, Catalog, score_candidate, add_judged, sort_out,
  ordered_candidates, is_allowed, read_request, decide, route_model, plan_route, requested_model,
}
use mixapi.Routing.Laws.Perms.{ordered_candidates-perm}
use mixapi.Routing.Laws.Every.{ordered_candidates-All}
use mixapi.Routing.Laws.Ascending.{IsAscending, ordered_candidates-IsAscending}

-- The candidates without a reason against them.
pub eligible_of : Requirements → List ProviderModel → List ProviderModel
eligible_of r [] = []
eligible_of r (c ∷ cs) =
    if is_some (rejection_reason c r) then eligible_of r cs else c ∷ eligible_of r cs

-- The score is the one that the objective gives to the candidate.
abbrev IsScored : Objective → Scored → Type 0
IsScored o x = x.score ≡ score_candidate x.candidate o

candidates_of : List Scored → List ProviderModel
candidates_of xs = map (λ (x : Scored). x.candidate) xs

add_judged-candidates :
    (c : ProviderModel) (o : Objective) (judged : Option String)
    (done : List Scored × List Rejection)
    → candidates_of ((add_judged c o judged done).0)
      ≡ (if is_some judged then candidates_of (done.0) else c ∷ candidates_of (done.0))
unfolding add_judged candidates_of
add_judged-candidates c o none done = refl
add_judged-candidates c o (some reason) done = refl

sort_out-eligible_of :
    (r : Requirements) (o : Objective) (cs : List ProviderModel)
    → candidates_of ((sort_out r o cs).0) ≡ eligible_of r cs
unfolding sort_out eligible_of candidates_of
sort_out-eligible_of r o [] = refl
sort_out-eligible_of r o (c ∷ cs) =
    rw (← sort_out-eligible_of r o cs)
      (add_judged-candidates c o (rejection_reason c r) (sort_out r o cs))

add_judged-IsScored :
    (c : ProviderModel) (o : Objective) (judged : Option String)
    (done : List Scored × List Rejection)
    → All (IsScored o) (done.0)
    → All (IsScored o) ((add_judged c o judged done).0)
unfolding add_judged
add_judged-IsScored c o none done h = (refl, h)
add_judged-IsScored c o (some reason) done h = h

sort_out-IsScored :
    (r : Requirements) (o : Objective) (cs : List ProviderModel)
    → All (IsScored o) ((sort_out r o cs).0)
unfolding sort_out
sort_out-IsScored r o [] = tt
sort_out-IsScored r o (c ∷ cs) =
    add_judged-IsScored c o (rejection_reason c r) (sort_out r o cs) (sort_out-IsScored r o cs)

above_candidates :
    (o : Objective) (s : Decimal) (xs : List Scored)
    → All (IsScored o) xs
    → All (λ y. s ≤ℤ y.score) xs
    → All (λ c. s ≤ℤ score_candidate c o) (candidates_of xs)
unfolding candidates_of
above_candidates o s [] scored above = tt
above_candidates o s (x ∷ xs) scored above =
    (rw (scored.0) at (above.0), above_candidates o s xs scored.1 above.1)

candidates_of-IsAscending :
    (o : Objective) (xs : List Scored)
    → All (IsScored o) xs
    → IsAscending (λ x. x.score) xs
    → IsAscending (λ c. score_candidate c o) (candidates_of xs)
unfolding candidates_of
candidates_of-IsAscending o [] scored ascending = tt
candidates_of-IsAscending o (x ∷ xs) scored ascending = (
  (rw (scored.0) at (above_candidates o x.score xs scored.1 ascending.0)),
  candidates_of-IsAscending o xs scored.1 ascending.1,
)

decide-ok :
    (xs : List Scored) (rejected : List Rejection) (model_id : String) (d : RouteDecision)
    → decide xs rejected model_id ≡ ok d
    → (d.candidates ≡ candidates_of xs)
      × (d.logical_model_id ≡ model_id)
      × ((others : List ProviderModel) × (d.candidates ≡ d.candidate ∷ others))
unfolding decide candidates_of
decide-ok [] rejected model_id d returns = absurd (cc returns)
decide-ok (x ∷ xs) rejected model_id d returns =
    rw (← ok_injective returns) (refl, refl, (candidates_of xs, refl))

candidates_of-perm : (xs ys : List Scored) → Perm xs ys → Perm (candidates_of xs) (candidates_of ys)
unfolding candidates_of
candidates_of-perm xs ys same = Perm.map (λ (x : Scored). x.candidate) same

-- The candidates of a decision, against the model that is asked for: all that can serve the
-- request and no other, the lowest score first, and the first of them is chosen.
pub record IsRouted (catalog : Catalog) (q : Request) (d : RouteDecision) : Type 0 where
  pub model : LogicalModel
  pub needs : Requirements
  pub objective : Objective
  pub others : List ProviderModel
  pub found : catalog.model_of d.logical_model_id ≡ some model
  pub allowed : is_allowed catalog d.logical_model_id q.model_allowlist ≡ true
  pub needed : read_request q ≡ ok (needs, objective)
  pub complete : Perm d.candidates (eligible_of needs model.candidates)
  pub ascending : IsAscending (λ c. score_candidate c objective) d.candidates
  pub chosen : d.candidates ≡ d.candidate ∷ others

module _ (rendezvous_rank : String → ProviderModel → Decimal) (catalog : Catalog)
    (q : Request) where
  route_model-IsRouted :
      (model : LogicalModel) (model_id : String) (r : Requirements) (o : Objective)
      (d : RouteDecision)
      → catalog.model_of model_id ≡ some model
      → is_allowed catalog model_id q.model_allowlist ≡ true
      → read_request q ≡ ok (r, o)
      → route_model rendezvous_rank q model model_id (r, o) ≡ ok d
      → IsRouted catalog q d
  unfolding route_model
  route_model-IsRouted model model_id r o d found allowed needed returns =
      let sorted = sort_out r o model.candidates in
      let seed = if q.selection_seed == "" then model_id else q.selection_seed in
      let ordered = ordered_candidates rendezvous_rank (sorted.0) seed in
      let (all, same_id, (others, first)) = decide-ok ordered (sorted.1) model_id d returns in
      record {
        model = model;
        needs = r;
        objective = o;
        others = others;
        found = rw same_id found;
        allowed = rw same_id allowed;
        needed = needed;
        complete = rw all (
            rw (← sort_out-eligible_of r o model.candidates) (
              candidates_of-perm ordered (sorted.0)
                (ordered_candidates-perm rendezvous_rank (sorted.0) seed)));
        ascending = rw all (
            candidates_of-IsAscending o ordered
              (ordered_candidates-All (IsScored o) rendezvous_rank seed (sorted.0)
                (sort_out-IsScored r o model.candidates))
              (ordered_candidates-IsAscending rendezvous_rank seed (sorted.0)));
        chosen = first;
      }

  -- A decision that `plan_route` returns is for a listed model, and it offers the candidates that
  -- the requirements of the request do not reject: all of them, none twice as often, no other, the
  -- lowest score first.
  pub plan_route-IsRouted :
      (d : RouteDecision) → plan_route rendezvous_rank catalog q ≡ ok d → IsRouted catalog q d
  unfolding plan_route
  plan_route-IsRouted d returns =
      let (requested, _, r1) = >>=-ok (requested_model q.body) _ d returns in
      let (model_id, _, r2) =
        >>=-ok
          (or_raise (catalog.resolve_model_id requested) (capability_unsupported "model_not_found"))
          _ d r1 in
      let (u, unrefused, r3) =
        >>=-ok
          (raise_if (not (is_allowed catalog model_id q.model_allowlist))
            (permission_denied "model_not_allowed"))
          _ d r2 in
      let allowed =
        raise_if-ok (not (is_allowed catalog model_id q.model_allowlist)) _ u unrefused in
      let (model, there, r4) =
        >>=-ok (or_raise (catalog.model_of model_id) (capability_unsupported "model_not_found")) _ d
          r3 in
      let ((r, o), needed, routed) = >>=-ok (read_request q) _ d r4 in
      route_model-IsRouted model model_id r o d
        (or_raise-ok (catalog.model_of model_id) _ model there) (ground (arith, allowed)) needed
        routed
