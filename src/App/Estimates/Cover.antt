-- ===== src/App/Estimates/Cover.antt =====
-- The reservation covers what the dispatches may cost.
use mathlib.Core.Path.{subst}
use mixapi.Shared.{
  ℕ, ◌+◌, ◌*◌, ◌≤◌, ◌≡◌, refl, true, false, ◌&&◌, List, [], ◌∷◌, arith, ok, or_else, All, All-map,
  Bool-cases, inl, inr, ok_injective,
}
use mixapi.Money.{Money, Pricing, quantize, estimate_cost}
use mixapi.Models.{ProviderModel}
use mixapi.Routing.Order.{Rejection}
use mixapi.App.Dispatch.{AdapterResponse}
use mixapi.App.Dispatch.Billing.{sum_of, cost_of}
use mixapi.App.Estimates.{
  RequestSize, corrective_retry_token_reserve, output_tokens_of, is_structured,
  estimate_candidate_request_cost, estimate_structured_candidate_request_cost, estimate_of, exceeds,
  max_of, within_limit, estimated_cost, check_cost, budget_eligible_candidates,
}

mul_mono : (p a b : ℕ) → a ≤ b → p * a ≤ p * b
mul_mono p a b le = grind arith

quantize_mono : (a b : ℕ) → a ≤ b → quantize a ≤ quantize b
unfolding quantize
quantize_mono a b le = ground arith

estimate_cost_mono :
    (p : Pricing) (i j o u : ℕ) → i ≤ j → o ≤ u → estimate_cost i o p ≤ estimate_cost j u p
unfolding estimate_cost
estimate_cost_mono p i j o u input output =
    quantize_mono (or_else p.input_per_million 0 * i + or_else p.output_per_million 0 * o)
      (or_else p.input_per_million 0 * j + or_else p.output_per_million 0 * u)
      (omega (
        arith,
        mul_mono (or_else p.input_per_million 0) i j input,
        mul_mono (or_else p.output_per_million 0) o u output,
      ))

-- The response uses no more tokens than were estimated, but for `extra` of its input.
pub record Fits (z : RequestSize) (extra : ℕ) (c : ProviderModel) (r : AdapterResponse)
    : Type 0 where
  pub input : r.input_tokens ≤ z.input_tokens + extra
  pub output : r.output_tokens ≤ output_tokens_of z c

abbrev pub cost_at : ProviderModel → AdapterResponse → Money
cost_at c r = cost_of (record { candidate = c; response = r })

max_of-All :
    {A : Type 0} (f : A → ℕ) (xs : List A) (m : ℕ) → max_of f xs ≤ m → All (λ x. f x ≤ m) xs
unfolding max_of
max_of-All f [] m le = tt
max_of-All f (x ∷ xs) m le = (omega (arith, le), max_of-All f xs m (omega (arith, le)))

sum_of_mono :
    {A : Type 0} (f g : A → ℕ) (xs : List A) → ((x : A) → f x ≤ g x) → sum_of f xs ≤ sum_of g xs
unfolding sum_of
sum_of_mono f g [] le = omega arith
sum_of_mono f g (x ∷ xs) le = omega (arith, le x, sum_of_mono f g xs le)

-- The cost of a result is the estimate for its candidates, and a structured request is within its
-- limit.
abbrev IsPriced : RequestSize → List ProviderModel × List Rejection × Money → Type 0
IsPriced z (eligible, rejected, cost) =
    (cost ≡ estimated_cost z eligible) × ((is_structured z && exceeds z.max_cost_usd cost) ≡ false)

check_cost-IsPriced :
    (z : RequestSize) (kept : List ProviderModel) (rejected : List Rejection)
    (t : List ProviderModel × List Rejection × Money)
    → check_cost z (kept, rejected) ≡ ok t
    → IsPriced z t
unfolding check_cost
check_cost-IsPriced z [] rejected t returns = absurd (cc returns)
check_cost-IsPriced z (c ∷ cs) rejected t returns =
    elim (Bool-cases (is_structured z && exceeds z.max_cost_usd (estimated_cost z (c ∷ cs)))) [
      | inl over ↦ absurd (cc (rw over at returns))
      | inr fits ↦
          let same : (c ∷ cs, rejected, estimated_cost z (c ∷ cs)) ≡ t =
            ok_injective (rw fits at returns) in
          subst (IsPriced z) same (refl, fits)
    ]

plain_estimate :
    (z : RequestSize) (c : ProviderModel) (r : AdapterResponse)
    → is_structured z ≡ false
    → Fits z 0 c r
    → cost_at c r ≤ estimate_of z c
unfolding estimate_candidate_request_cost
plain_estimate z c r plain fits = rw plain (
    estimate_cost_mono c.pricing r.input_tokens z.input_tokens r.output_tokens
      (output_tokens_of z c) (omega (arith, fits.input)) fits.output)

structured_estimate :
    (z : RequestSize) (c : ProviderModel) (first second : AdapterResponse)
    → is_structured z ≡ true
    → Fits z 0 c first
    → Fits z corrective_retry_token_reserve c second
    → cost_at c first + cost_at c second ≤ estimate_of z c
unfolding estimate_structured_candidate_request_cost
structured_estimate z c first second structured fits fits' =
    let responses : z.embeddings ≡ false = ground (arith, structured) in
    let output = or_else z.max_output_tokens c.max_output_tokens in
    let one : cost_at c first ≤ estimate_cost z.input_tokens output c.pricing =
      estimate_cost_mono c.pricing first.input_tokens z.input_tokens first.output_tokens output
        (omega (arith, fits.input)) (rw responses at (fits.output)) in
    let two : cost_at c second
        ≤ estimate_cost (z.input_tokens + corrective_retry_token_reserve) output c.pricing =
      estimate_cost_mono c.pricing second.input_tokens
        (z.input_tokens + corrective_retry_token_reserve) second.output_tokens output fits'.input
        (rw responses at (fits'.output)) in
    rw structured (omega (arith, one, two))

-- A request without a schema is dispatched to one candidate: whichever it is, what is reserved
-- covers its cost, if the response uses no more tokens than were estimated.
pub plain_reservation_covers :
    (z : RequestSize) (cs eligible : List ProviderModel) (rejected : List Rejection) (cost : Money)
    (r : ProviderModel → AdapterResponse)
    → is_structured z ≡ false
    → budget_eligible_candidates z cs ≡ ok (eligible, rejected, cost)
    → ((c : ProviderModel) → Fits z 0 c (r c))
    → All (λ c. cost_at c (r c) ≤ cost) eligible
unfolding budget_eligible_candidates estimated_cost estimate_candidate_request_cost
plain_reservation_covers z cs eligible rejected cost r plain returns fits =
    let (priced, _) =
      check_cost-IsPriced z (within_limit z cs).0 (within_limit z cs).1 (eligible, rejected, cost)
        returns in
    All-map (λ c. estimate_of z c ≤ cost) (λ c. cost_at c (r c) ≤ cost)
      (λ c le. omega (arith, le, plain_estimate z c (r c) plain (fits c))) eligible
      (max_of-All (estimate_of z) eligible cost (rw (priced, estimated_cost, plain) (omega arith)))

-- A request with a schema may be dispatched to every candidate in turn, and twice: what is reserved
-- covers all of it, if the responses use no more tokens than were estimated, and it is within the
-- cost limit of the request.
pub structured_reservation_covers :
    (z : RequestSize) (cs eligible : List ProviderModel) (rejected : List Rejection) (cost : Money)
    (first second : ProviderModel → AdapterResponse)
    → is_structured z ≡ true
    → budget_eligible_candidates z cs ≡ ok (eligible, rejected, cost)
    → ((c : ProviderModel) → Fits z 0 c (first c))
    → ((c : ProviderModel) → Fits z corrective_retry_token_reserve c (second c))
    → (sum_of (λ c. cost_at c (first c) + cost_at c (second c)) eligible ≤ cost)
      × (exceeds z.max_cost_usd cost ≡ false)
unfolding budget_eligible_candidates estimated_cost estimate_structured_candidate_request_cost
structured_reservation_covers z cs eligible rejected cost first second structured returns fits
      fits' =
    let (priced, within) =
      check_cost-IsPriced z (within_limit z cs).0 (within_limit z cs).1 (eligible, rejected, cost)
        returns in
    (
      rw (priced, estimated_cost, structured)
          (sum_of_mono (λ c. cost_at c (first c) + cost_at c (second c)) (estimate_of z) eligible
            (λ c. structured_estimate z c (first c) (second c) structured (fits c) (fits' c))),
      rw structured at within,
    )
