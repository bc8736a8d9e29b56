-- ===== src/App/Admission/Quotas.antt =====
-- The two quotas of a request are reserved together or not at all.
use mathlib.Core.Path.{subst⁻¹}
use mixapi.Shared.{
  ◌≡◌, refl, sym, ◌∙◌, Bool, true, false, none, some, ◌∷◌, String, arith, eq_refl, Result, ok, err,
  Bool-cases, Option-cases, inl, inr, if◌then◌else◌,
}
use mixapi.Shared.Int.{ℤ, pos, ◌+ℤ◌, leb_ℤ, ltb_ℤ, +ℤ_zero}
use mixapi.Errors.{MixApiError, quota_exceeded}
use mixapi.Exec.{pure, on_error, ◌>>=◌}
use mixapi.Redis.{Redis, Conn, number}
use mixapi.Runtime.Holds.{Account, find, drop, total, open_hold, close_hold}
use mixapi.Runtime.Quota.{
  QuotaKey, actual, reserved, reservation, request, Limits, TokenReservation, reserve_tokens,
  reserve_tokens_script, release_tokens, reserve_request, reserve_request_script,
}
use mixapi.Runtime.Quota.Tokens.{Represents, reserve-Represents, release-Represents}
use mixapi.Runtime.Quota.Runs.{release_tokens_state}
use mixapi.App.Admission.{reserve_quotas}

-- Closing a reservation that was just opened, with nothing settled, gives the account back.
pub close_hold-open :
    (uuid : String) (a : ℤ) (l : Account)
    → (close_hold uuid (pos 0) (record l { holds = (uuid, a) ∷ l.holds })).1 ≡ l
unfolding close_hold find drop
close_hold-open uuid a l =
    let found : find uuid ((uuid, a) ∷ l.holds) ≡ some a = rw (find, eq_refl uuid) refl in
    let dropped : drop uuid ((uuid, a) ∷ l.holds) ≡ l.holds = rw (drop, eq_refl uuid) refl in
    rw (found, close_hold, dropped, +ℤ_zero) refl

module _ (R : Redis QuotaKey ℤ) (limits : Limits) (k uuid : String) (a : ℤ) where
  abbrev pub hold : TokenReservation
  hold = record { api_key_id = k; amount_tokens = a; reservation_id = uuid }

  request_set-Represents :
      (s : R.State) (v : ℤ) (l : Account)
      → Represents R k s l
      → Represents R k (R.set s (request k) v) l
  request_set-Represents s v l rep = record {
    actual_is = grind (arith, R.get-set_ne, rep.actual_is);
    reserved_is = grind (arith, R.get-set_ne, rep.reserved_is);
    hold_is = λ r. grind (arith, R.get-set_ne, rep.hold_is r);
    distinct = rep.distinct;
  }

  script-Represents :
      (q : ℤ) (s : R.State) (l : Account)
      → Represents R k s l
      → Represents R k (reserve_request_script R (request k) q s).1 l
  unfolding reserve_request_script
  script-Represents q s l rep = elim (Bool-cases (leb_ℤ q (number R s (request k)))) [
    | inl full ↦ rw (reserve_request_script, full) rep
    | inr room ↦ rw (reserve_request_script, room) (request_set-Represents s _ l rep)
  ]

  pub request-Represents :
      (c : Conn R.State) (l : Account)
      → c.reachable ≡ true
      → Represents R k c.store l
      → let c' = (reserve_request R limits k c).1 in
        (c'.reachable ≡ true) × Represents R k c'.store l
  unfolding reserve_request
  request-Represents c l up rep = elim (Option-cases limits.request_limit) [
    | inl free ↦ rw (reserve_request, free) (up, rep)
    | inr (q, limited) ↦ rw (reserve_request, limited, up) (refl, script-Represents q c.store l rep)
  ]

  -- What is reserved after the call: the tokens, under the reservation that is returned, or nothing
  -- where it raises.
  abbrev pub IsAllOrNothing : Account → Result MixApiError TokenReservation × Conn R.State → Type 0
  IsAllOrNothing l (ok h, c) =
      (h ≡ hold) × Represents R k c.store (record l { holds = (uuid, a) ∷ l.holds })
  IsAllOrNothing l (err e, c) = Represents R k c.store l

  module _ (limit : ℤ) (limited : limits.token_limit ≡ some limit) (l : Account) where
    abbrev pub held : Account
    held = record l { holds = (uuid, a) ∷ l.holds }

    -- `raise` after the tokens are released, whether the release itself raises or not.
    raised_answer :
        (e : MixApiError) (r : Result MixApiError (Unit {0})) (c1 c2 c : Conn R.State)
        → Represents R k c.store l
        → IsAllOrNothing l
            ((on_error {A = Unit {0}} (λ _. (err e, c2)) (λ _. (r, c)) >>= λ _. pure hold) c1)
    raised_answer e (ok u) c1 c2 c rep = rep
    raised_answer e (err e') c1 c2 c rep = rep

    released :
        (c : Conn R.State)
        → c.reachable ≡ true
        → Represents R k c.store held
        → Represents R k (release_tokens R limits hold c).1.store l
    released c up rep =
        rw (release_tokens_state R limits limited hold c up)
          (rw (close_hold-open uuid a l) at ((release-Represents R k uuid c.store held rep).1))

    request_answer :
        (r : Result MixApiError (Unit {0})) (c1 c : Conn R.State)
        → c.reachable ≡ true
        → Represents R k c.store held
        → IsAllOrNothing l
            ((on_error (λ _. (r, c)) (release_tokens R limits hold) >>= λ _. pure hold) c1)
    request_answer (ok u) c1 c up rep = (refl, rep)
    request_answer (err e) c1 c up rep =
        let after = release_tokens R limits hold c in
        raised_answer e after.0 c1 c after.1 (released c up rep)

    pub opened_lem : (open_hold uuid a limit l).0 ≡ true → (open_hold uuid a limit l).1 ≡ held
    unfolding open_hold
    opened_lem granted = elim (Bool-cases (ltb_ℤ limit (l.actual +ℤ total l.holds +ℤ a))) [
      | inl over ↦ absurd (cc (rw (open_hold, over) at granted))
      | inr fits ↦ rw (open_hold, fits) refl
    ]

    pub refused_lem : (open_hold uuid a limit l).0 ≡ false → (open_hold uuid a limit l).1 ≡ l
    unfolding open_hold
    refused_lem refused = elim (Bool-cases (ltb_ℤ limit (l.actual +ℤ total l.holds +ℤ a))) [
      | inl over ↦ rw (open_hold, over) refl
      | inr fits ↦ absurd (cc (rw (open_hold, fits) at refused))
    ]

    pub tokens_answer :
        (c : Conn R.State) (b : Bool)
        → c.reachable ≡ true
        → (reserve_tokens_script R (actual k) (reserved k) (reservation k uuid) a limit c.store).0
          ≡ b
        → reserve_tokens R limits k a uuid c ≡ (
          (if b then ok hold else err (quota_exceeded "token_quota_exceeded")),
          record c {
            store =
                (reserve_tokens_script R
                  (actual k)
                  (reserved k)
                  (reservation k uuid)
                  a
                  limit
                  c.store).1;
          },
        )
    unfolding reserve_tokens
    tokens_answer c true up done = rw (limited, up) (rw done refl)
    tokens_answer c false up done = rw (limited, up) (rw done refl)

    -- The rest of `_reserve_quotas`, for what the reservation of tokens came to.
    abbrev ask :
        Result MixApiError TokenReservation × Conn R.State
        → Result MixApiError TokenReservation × Conn R.State
    ask x =
        ((λ _. x) >>= λ h.
        on_error (reserve_request R limits k) (release_tokens R limits h) >>= λ _. pure h)
          x.1

    -- On a server that answers, with a token limit, for an account that the store represents and an
    -- identifier that is not open: when `_reserve_quotas` returns, the reservation that it returns
    -- is open for the tokens; when it raises, the account is as before.
    pub reserve_quotas-IsAllOrNothing :
        (c : Conn R.State)
        → c.reachable ≡ true
        → Represents R k c.store l
        → find uuid l.holds ≡ none
        → IsAllOrNothing l (reserve_quotas R limits k a uuid c)
    unfolding reserve_quotas
    reserve_quotas-IsAllOrNothing c up rep fresh =
        let script =
          reserve_tokens_script R (actual k) (reserved k) (reservation k uuid) a limit c.store in
        let (answer, after) = reserve-Represents R k uuid a limit c.store l rep fresh in
        elim (Bool-cases (script.0)) [
          | inl granted ↦
              let opened = opened_lem (sym answer ∙ granted) in
              let c1 : Conn R.State = record c { store = script.1 } in
              let (up', rep') = request-Represents c1 held up (rw opened at after) in
              let asked = reserve_request R limits k c1 in
              subst⁻¹ (λ x. IsAllOrNothing l (ask x)) (tokens_answer c true up granted)
                (request_answer asked.0 c1 asked.1 up' rep')
          | inr refused ↦
              subst⁻¹ (λ x. IsAllOrNothing l (ask x)) (tokens_answer c false up refused)
                (rw (refused_lem (sym answer ∙ refused)) at after)
        ]
