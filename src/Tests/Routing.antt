-- ===== src/Tests/Routing.antt =====
-- A routing decision between two candidates.
use mathlib.Core.List.{Perm}
use mixapi.Shared.{◌≡◌, refl, none, some, List, [], ◌∷◌, String, ok, ◌==◌, if◌then◌else◌}
use mixapi.Shared.Int.{pos}
use mixapi.Money.{Decimal}
use mixapi.Json.{end, field, str}
use mixapi.Models.{ProviderModel, LogicalModel, active}
use mixapi.Routing.Requirements.{
  required_input_modalities, provider_pin, routing_objective, rejection_reason,
  requires_strict_schema, requires_function_tools,
}
use mixapi.Routing.Order.{Scored, Request, Catalog, RouteDecision, plan_route, ordered_candidates}
use mixapi.Routing.Laws.Decision.{IsRouted, plan_route-IsRouted}
use mixapi.Routing.Laws.Perms.{ordered_candidates-perm}
use mixapi.Routing.Laws.Ascending.{IsAscending, ordered_candidates-IsAscending}
use mixapi.Tests.{candidate}

abbrev pub no_rank : String → ProviderModel → Decimal
no_rank seed c = pos 0

abbrev model : LogicalModel
model = record {
  id = "chat";
  status = active;
  description = "";
  candidates = candidate "second" (pos 2) ∷ candidate "first" (pos 1) ∷ [];
}

abbrev catalog : Catalog
catalog = record {
  resolve_model_id = λ m. if m == "chat" then some "chat" else none;
  model_of = λ m. if m == "chat" then some model else none;
}

abbrev request : Request
request = record {
  body = field "model" (str "chat") end;
  endpoint = "responses";
  model_allowlist = some ("chat" ∷ []);
  default_objective = none;
  selection_seed = "seed";
  connection_pin = none;
}

abbrev decision : RouteDecision
decision = record {
  candidate = candidate "first" (pos 1);
  candidates = candidate "first" (pos 1) ∷ candidate "second" (pos 2) ∷ [];
  rejected = [];
  score = pos 100000000;
  logical_model_id = "chat";
}

decided : plan_route no_rank catalog request ≡ ok decision
unfolding plan_route required_input_modalities provider_pin routing_objective rejection_reason
    requires_strict_schema requires_function_tools
decided = refl

plan_route-IsRouted_example : IsRouted catalog request decision
plan_route-IsRouted_example = plan_route-IsRouted no_rank catalog request decision decided

abbrev two_scored : List Scored
two_scored =
    record { candidate = candidate "second" (pos 2); score = pos 2 }
    ∷ record { candidate = candidate "first" (pos 1); score = pos 1 }
    ∷ []

ordered_candidates-perm_example : Perm (ordered_candidates no_rank two_scored "seed") two_scored
ordered_candidates-perm_example = ordered_candidates-perm no_rank two_scored "seed"

ordered_candidates-IsAscending_example :
    IsAscending (λ x. x.score) (ordered_candidates no_rank two_scored "seed")
ordered_candidates-IsAscending_example = ordered_candidates-IsAscending no_rank "seed" two_scored
