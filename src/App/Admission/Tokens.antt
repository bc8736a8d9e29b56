-- ===== src/App/Admission/Tokens.antt =====
-- How the calls about the tokens of one request end, for an API key with a token limit: `_reserve_quotas`
-- of mixapi/app.py, and the release and reconciliation of mixapi/runtime/quota.py.
use mixapi.Shared.{
  ◌≡◌, refl, sym, ◌∙◌, true, false, none, some, ◌∷◌, String, eq_refl, Bool-cases, inl, inr,
}
use mathlib.Core.Path.{subst⁻¹}
use mixapi.Shared.Int.{ℤ, ◌+ℤ◌}
use mixapi.Exec.{pure, on_error, ◌>>◌}
use mixapi.Exec.Ends.{Ends, Ends-state, Ends-safe, >>=-Ends, on_error-Ends}
use mixapi.Redis.{Redis, Conn}
use mixapi.Runtime.Holds.{Account, find, drop, close_hold}
use mixapi.Runtime.Quota.{
  QuotaKey, actual, reserved, reservation, Limits, TokenReservation, reserve_tokens,
  reserve_tokens_script, release_tokens, reconcile_tokens, reserve_request,
}
use mixapi.Runtime.Quota.Tokens.{reserve-Represents, reconcile-Represents, release-Represents}
use mixapi.Runtime.Quota.Apart.{Kept}
use mixapi.App.Admission.{reserve_quotas}
use mixapi.App.Admission.Quotas.{
  hold, held, close_hold-open, request-Represents, opened_lem, refused_lem, tokens_answer,
}

-- Closing a reservation that was just opened settles what is used.
close_hold-settled :
    (uuid : String) (a used : ℤ) (l : Account)
    → (close_hold uuid used (record l { holds = (uuid, a) ∷ l.holds })).1
      ≡ record l { actual = l.actual +ℤ used }
unfolding close_hold find drop
close_hold-settled uuid a used l =
    let found : find uuid ((uuid, a) ∷ l.holds) ≡ some a = rw (find, eq_refl uuid) refl in
    let dropped : drop uuid ((uuid, a) ∷ l.holds) ≡ l.holds = rw (drop, eq_refl uuid) refl in
    rw (found, close_hold, dropped) refl

module _ (R : Redis QuotaKey ℤ) (limits : Limits) (k uuid : String) (a : ℤ) (limit : ℤ)
    (limited : limits.token_limit ≡ some limit) (l : Account) where
  abbrev pub reserved_account : Account
  reserved_account = held R limits k uuid a limit limited l

  abbrev pub spent_account : ℤ → Account
  spent_account used = record l { actual = l.actual +ℤ used }

  abbrev pub IsReserved : TokenReservation → Conn R.State → Type 0
  IsReserved h c = (h ≡ hold R limits k uuid a) × Kept R k reserved_account c

  pub release_tokens-Ends :
      (h : TokenReservation) (c : Conn R.State)
      → IsReserved h c
      → Ends (λ _. Kept R k l) (λ _ _. ⊥) (release_tokens R limits h c)
  unfolding release_tokens
  release_tokens-Ends h c (same, (up, rep)) =
      rw (same, limited, up)
        (
          refl,
          rw (close_hold-open uuid a l) at
              ((release-Represents R k uuid c.store reserved_account rep).1),
        )

  pub reconcile_tokens-Ends :
      (h : TokenReservation) (used : ℤ) (c : Conn R.State)
      → IsReserved h c
      → Ends (λ _. Kept R k (spent_account used)) (λ _ _. ⊥) (reconcile_tokens R limits h used c)
  unfolding reconcile_tokens
  reconcile_tokens-Ends h used c (same, (up, rep)) =
      rw (same, limited, up)
        (
          refl,
          rw (close_hold-settled uuid a used l) at
              ((reconcile-Represents R k uuid used c.store reserved_account rep).1),
        )

  module _ (fresh : find uuid l.holds ≡ none) where
    reserve_tokens-Ends :
        (c : Conn R.State)
        → Kept R k l c
        → Ends IsReserved (λ _. Kept R k l) (reserve_tokens R limits k a uuid c)
    reserve_tokens-Ends c (up, rep) =
        let script =
          reserve_tokens_script R (actual k) (reserved k) (reservation k uuid) a limit c.store in
        let (answer, after) = reserve-Represents R k uuid a limit c.store l rep fresh in
        elim (Bool-cases (script.0)) [
          | inl granted ↦
              subst⁻¹ (Ends IsReserved (λ _. Kept R k l))
                (tokens_answer R limits k uuid a limit limited l c true up granted)
                (
                  refl,
                  (
                    up,
                    rw (opened_lem R limits k uuid a limit limited l (sym answer ∙ granted)) at
                        after,
                  ),
                )
          | inr refused ↦
              subst⁻¹ (Ends IsReserved (λ _. Kept R k l))
                (tokens_answer R limits k uuid a limit limited l c false up refused)
                (
                  up,
                  rw (refused_lem R limits k uuid a limit limited l (sym answer ∙ refused)) at
                      after,
                )
        ]

    pub reserve_quotas-Ends :
        (c : Conn R.State)
        → Kept R k l c
        → Ends IsReserved (λ _. Kept R k l) (reserve_quotas R limits k a uuid c)
    unfolding reserve_quotas
    reserve_quotas-Ends c free =
        >>=-Ends IsReserved IsReserved (λ _. Kept R k l) (reserve_tokens R limits k a uuid)
          (λ h. on_error (reserve_request R limits k) (release_tokens R limits h) >> pure h) c
          (reserve_tokens-Ends c free)
          λ h c1 (same, (up, rep)).
            >>=-Ends (λ _. Kept R k reserved_account) IsReserved (λ _. Kept R k l)
              (on_error (reserve_request R limits k) (release_tokens R limits h)) (λ _. pure h) c1
              (on_error-Ends (λ _. Kept R k reserved_account) (λ _. Kept R k reserved_account)
                (λ _. Kept R k l) (reserve_request R limits k) (release_tokens R limits h) c1
                (Ends-state (Kept R k reserved_account) (reserve_request R limits k c1)
                  (request-Represents R limits k uuid a c1 reserved_account up rep))
                (λ e c2 kept.
                  Ends-safe (λ _. Kept R k l) (λ _. Kept R k l) (release_tokens R limits h c2)
                    (release_tokens-Ends h c2 (same, kept))))
              (λ _ c2 kept. (same, kept))
