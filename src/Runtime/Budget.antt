-- ===== src/Runtime/Budget.antt =====
-- mixapi/budget.py and mixapi/runtime/budget.py: the spend budget of an API key. The durable spend
-- of a key is kept by the database; what a call reads of it is an argument `spent` here. How long a
-- settled reservation is remembered is left out.
pub mod Settlement
pub mod Holding
use mixapi.Shared.{
  Bool, true, false, not, Option, none, some, String, ok, err, is_some, if◌then◌else◌,
}
use mixapi.Shared.Int.{ℤ, pos, ◌+ℤ◌, ltb_ℤ}
use mixapi.Errors.{budget_exceeded}
use mixapi.Exec.{Exec, pure, raise_if, ◌>>=◌, ◌>>◌}
use mixapi.Money.{Decimal}
use mixapi.Redis.{Redis, Conn, number, incr_by, decr_by, call}

-- `_keys`
pub data BudgetKey : Type 0 where
  actual reserved : String → BudgetKey
  reservation reconciled : String → String → BudgetKey

pub record BudgetReservation : Type 0 where
  pub api_key_id : String
  pub amount_usd : Decimal
  pub tracked : Bool
  pub reservation_id : String

unfoldable pub effective_budget_limit : Option Decimal → Option Decimal → Option Decimal
effective_budget_limit none key_limit = key_limit
effective_budget_limit (some limit) none = some limit
effective_budget_limit (some limit) (some key_limit) =
    some (if ltb_ℤ key_limit limit then key_limit else limit)

module _ (R : Redis BudgetKey ℤ) where
  -- `SETNX`
  abbrev pub set_if_missing : R.State → BudgetKey → ℤ → R.State
  set_if_missing s k v = if is_some (R.get s k) then s else R.set s k v

  -- `_RESERVE`
  unfoldable pub reserve_script :
      BudgetKey → BudgetKey → BudgetKey → ℤ → ℤ → ℤ → R.State → Bool × R.State
  reserve_script k_actual k_reserved k_hold spent amount limit s =
      let s1 = set_if_missing s k_actual spent in
      if ltb_ℤ limit (number R s1 k_actual +ℤ number R s1 k_reserved +ℤ amount)
      then (false, s1)
      else (true, incr_by R (R.set s1 k_hold amount) k_reserved amount)

  -- The part of `_RECONCILE` and `_RELEASE` that gives up a reservation.
  unfoldable pub drop_hold : BudgetKey → BudgetKey → Option ℤ → R.State → R.State
  drop_hold k_reserved k_hold none s = s
  drop_hold k_reserved k_hold (some amount) s = R.delete (decr_by R s k_reserved amount) k_hold

  -- `_RECONCILE`
  unfoldable pub reconcile_script :
      BudgetKey → BudgetKey → BudgetKey → BudgetKey → ℤ → R.State → Bool × R.State
  unfolding drop_hold
  reconcile_script k_actual k_reserved k_hold k_done spent s =
      if is_some (R.get s k_done) then (false, s) else (
        true,
        R.set (R.set (drop_hold k_reserved k_hold (R.get s k_hold) s) k_actual spent) k_done
            (pos 1),
      )

  -- `_RELEASE`
  unfoldable pub release_script : BudgetKey → BudgetKey → R.State → Bool × R.State
  unfolding drop_hold
  release_script k_reserved k_hold s =
      (is_some (R.get s k_hold), drop_hold k_reserved k_hold (R.get s k_hold) s)

  -- `limit_usd` of the service comes first; `uuid` is the `uuid4().hex` that the call draws.
  unfoldable pub reserve :
      Option Decimal
      → String
      → Decimal
      → Option Decimal
      → ℤ
      → String
      → Exec (Conn R.State) BudgetReservation
  unfolding call effective_budget_limit
  reserve limit_usd api_key_id estimated key_limit spent uuid =
      let limit = effective_budget_limit limit_usd key_limit in
      let hold : BudgetReservation = record {
        api_key_id = api_key_id;
        amount_usd = estimated;
        tracked = is_some limit;
        reservation_id = uuid;
      } in
      elim limit [
        | none ↦ pure hold
        | some bound ↦ do
          accepted ← call (
              reserve_script (actual api_key_id) (reserved api_key_id) (reservation api_key_id uuid)
                spent estimated bound)
          raise_if (not accepted) (budget_exceeded "api_key_budget_exceeded")
          pure hold
      ]

  -- `_finish_redis_reconciliation`, without the mark in the database.
  unfoldable pub finish_redis_reconciliation :
      BudgetReservation → ℤ → Exec (Conn R.State) (Unit {0})
  unfolding call
  finish_redis_reconciliation h spent =
      if h.tracked
      then (do
        call (
            reconcile_script (actual h.api_key_id) (reserved h.api_key_id)
              (reservation h.api_key_id h.reservation_id) (reconciled h.api_key_id h.reservation_id)
              spent)
        pure tt)
      else pure tt

  unfoldable pub release : BudgetReservation → Exec (Conn R.State) (Unit {0})
  unfolding call
  release h =
      if h.tracked
      then (do
        call (release_script (reserved h.api_key_id) (reservation h.api_key_id h.reservation_id))
        pure tt)
      else pure tt
