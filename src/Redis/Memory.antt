-- ===== src/Redis/Memory.antt =====
-- A store that has the documented behaviour: a function from keys to values.
use mathlib.Core.Logic.{ite, if_pos, if_neg}
use mixapi.Shared.{
  ◌≡◌, ◌≢◌, refl, Option, none, some, String, Bool-cases, inl, inr, ◌==◌, eq_iff, true, false, ◌⊎◌,
}
use mixapi.Redis.{Redis}

module _ {K : Type 0} (V : Type 0) (dec : Discrete K) where
  abbrev pub update : (K → Option V) → K → Option V → K → Option V
  update s k o j = ite (dec k j) o (s j)

  pub update_self : (s : K → Option V) (k : K) (o : Option V) → update s k o k ≡ o
  update_self s k o = if_pos (dec k k) refl _ _

  pub update_ne : (s : K → Option V) (k j : K) (o : Option V) → k ≢ j → update s k o j ≡ s j
  update_ne s k j o h = if_neg (dec k j) h _ _

  abbrev pub memory : Redis K V
  memory = record {
    State = K → Option V;
    get = λ s k. s k;
    set = λ s k v. update s k (some v);
    delete = λ s k. update s k none;
    get-set_self = λ s k v. update_self s k (some v);
    get-set_ne = λ s k j v. update_ne s k j (some v);
    get-delete_self = λ s k. update_self s k none;
    get-delete_ne = λ s k j. update_ne s k j none;
  }

decide_by_test : (a b : String) → ((a == b) ≡ true) ⊎ ((a == b) ≡ false) → Dec (a ≡ b)
decide_by_test a b (inl e) = yes ((eq_iff a b).0 e)
decide_by_test a b (inr e) = no (λ p. cc (e, (eq_iff a b).1 p))

pub String-discrete : Discrete String
unfolding decide_by_test
String-discrete a b = decide_by_test a b (Bool-cases (a == b))
