-- ===== src/Redis.antt =====
-- Redis as the services of mixapi/runtime use it: an unknown store with the documented behaviour of
-- GET, SET and DEL, which the services take as a parameter, and a connection to it that may be down.
-- Keys are kept apart by their constructors, but for those of the sessions; the program joins the same
-- parts by colons.
pub mod Memory
use mixapi.Shared.{
  Bool, true, ◌≡◌, ◌≢◌, Option, none, some, Result, ok, err, or_else, if◌then◌else◌,
}
use mixapi.Shared.Int.{ℤ, pos, ◌+ℤ◌, ◌-ℤ◌}
use mixapi.Errors.{MixApiError, control_plane_unavailable}

pub record Redis (K V : Type 0) : Type 1 where
  pub State : Type 0
  pub get : State → K → Option V
  pub set : State → K → V → State
  pub delete : State → K → State
  pub get-set_self : (s : State) (k : K) (v : V) → get (set s k v) k ≡ some v
  pub get-set_ne : (s : State) (k j : K) (v : V) → k ≢ j → get (set s k v) j ≡ get s j
  pub get-delete_self : (s : State) (k : K) → get (delete s k) k ≡ none
  pub get-delete_ne : (s : State) (k j : K) → k ≢ j → get (delete s k) j ≡ get s j

-- INCRBY, DECRBY and GET of a counter: a missing key counts as 0.
module _ {K : Type 0} (R : Redis K ℤ) where
  abbrev pub number : R.State → K → ℤ
  number s k = or_else (R.get s k) (pos 0)

  abbrev pub incr_by : R.State → K → ℤ → R.State
  incr_by s k n = R.set s k (number s k +ℤ n)

  abbrev pub decr_by : R.State → K → ℤ → R.State
  decr_by s k n = R.set s k (number s k -ℤ n)

-- What a client holds: whether the server answers, and its data.
pub record Conn (S : Type 0) : Type 0 where
  pub reachable : Bool
  pub store : S

-- `LuaScript.__call__`: the script runs as one step, or the call raises and nothing has run. (How
-- the script is loaded and loaded again is in redis_scripts.py.)
unfoldable pub call : {S A : Type 0} → (S → A × S) → Conn S → Result MixApiError A × Conn S
call script c =
    if c.reachable
    then (let (a, s) = script c.store in (ok a, record c { store = s }))
    else (err control_plane_unavailable, c)

pub call_up :
    {S A : Type 0} (script : S → A × S) (c : Conn S)
    → c.reachable ≡ true
    → call script c ≡ (ok (script c.store).0, record c { store = (script c.store).1 })
unfolding call
call_up script c up = rw up
