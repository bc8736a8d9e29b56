-- ===== src/App/Dispatch/Rule.antt =====
-- The induction rule of the loop over the candidates.
use mixapi.Shared.{List, [], ◌∷◌, Result, ok, err, All}
use mixapi.Models.{ProviderModel}
use mixapi.Redis.{Redis}
use mixapi.Shared.Int.{ℤ}
use mixapi.Runtime.Quota.{QuotaKey}
use mixapi.App.Dispatch.{
  DispatchError, all_candidates_failed, service_error, Gateway, Progress, Round, returned, raised,
  next, World, Step,
}
use mixapi.App.Dispatch.Loops.{try_all}

abbrev pub exhausted : Progress → DispatchError
exhausted p = all_candidates_failed p.failed_attempts p.billable_dispatches p.validation_failures

module _ (R : Redis QuotaKey ℤ) (G : Gateway) {A : Type 0} where
  -- A round keeps the invariant, or ends the loop with the postcondition.
  abbrev pub Goes :
      (Progress → World R G → Type 0)
      → (Result DispatchError A × World R G → Type 0)
      → Round A × World R G
      → Type 0
  Goes Inv Post (returned a, w) = Post (ok a, w)
  Goes Inv Post (raised e, w) = Post (err (service_error e), w)
  Goes Inv Post (next p, w) = Inv p w

  module _ (Inv : List ProviderModel → Progress → World R G → Type 0)
      (Post : Result DispatchError A × World R G → Type 0) (Fits : ProviderModel → Type 0)
      (one : ProviderModel → Progress → Step R G A)
      (round : (c : ProviderModel) (cs : List ProviderModel) (p : Progress) (w : World R G)
        → Fits c
        → Inv (c ∷ cs) p w
        → Goes (Inv cs) Post (one c p w))
      (finish : (p : Progress) (w : World R G) → Inv [] p w → Post (err (exhausted p), w)) where
    -- The rest of the loop, after a round.
    after_round :
        (cs : List ProviderModel) (r : Round A) (w : World R G)
        (rest : Progress → World R G → Result DispatchError A × World R G)
        → Goes (Inv cs) Post (r, w)
        → ((p : Progress) → Inv cs p w → Post (rest p w))
        → Post (elim r [
          | returned a ↦ (ok a, w)
          | raised e ↦ (err (service_error e), w)
          | next p ↦ rest p w
        ])
    after_round cs (returned a) w rest h k = h
    after_round cs (raised e) w rest h k = h
    after_round cs (next p) w rest h k = k p h

    pub try_all_rule :
        (cs : List ProviderModel) (p : Progress) (w : World R G)
        → All Fits cs
        → Inv cs p w
        → Post (try_all R G one cs p w)
    unfolding try_all
    try_all_rule [] p w fits inv = finish p w inv
    try_all_rule (c ∷ cs) p w fits inv =
        after_round cs (one c p w).0 (one c p w).1 (try_all R G one cs) (round c cs p w fits.0 inv)
          (λ p'. try_all_rule cs p' (one c p w).1 fits.1)
