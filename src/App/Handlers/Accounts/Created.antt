-- ===== src/App/Handlers/Accounts/Created.antt =====
-- What a request of mixapi/app.py leaves of its reservations, from its arrival on.
use mixapi.Shared.{ℕ, ◌≡◌, some, List, String, Result, ◌⊎◌}
use mixapi.Shared.Int.{ℤ}
use mixapi.Errors.{MixApiError}
use mixapi.Exec.{Exec}
use mixapi.Exec.Ends.{Ends}
use mixapi.Json.{Fields}
use mixapi.Money.{Money}
use mixapi.App.Dispatch.Billing.{UsageEvent}
use mixapi.Runtime.Holds.{Account}
use mixapi.App.Handlers.{Services, Call, Desk}
use mixapi.App.Handlers.Opening.{Admitted}
use mixapi.App.Handlers.Accounts.Settled.{IsReliable, Charged, Held, Unheld}

module _ (P : Services) (reliable : IsReliable P.ledger) (q : Call) (limit : ℤ)
    (limited : P.limits.token_limit ≡ some limit) (l : Account) (n : ℤ) where
  -- No reservation of the request is open: the accounts are as before, or charged.
  abbrev pub IsClosed : Desk P → Type 0
  IsClosed d =
      Unheld P reliable q limit limited l n d
      ⊎ ((admitted : Admitted) × (cost : Money) × (events : List UsageEvent) × (used : ℕ) × Charged
            P reliable q limit limited l n admitted cost events used d)

  abbrev pub IsLeft : String → Desk P → Type 0
  IsLeft endpoint d =
      IsClosed d ⊎ ((admitted : Admitted) × Held P reliable q limit limited l n endpoint admitted d)

  abbrev pub Closes : String → Result MixApiError Fields × Desk P → Type 0
  Closes endpoint = Ends (λ _. IsClosed) (λ _. IsLeft endpoint)
