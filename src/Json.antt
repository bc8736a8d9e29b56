-- ===== src/Json.antt =====
-- JSON values, as request bodies hold them: `dict[str, Any]` is `Fields`. A float is the text that
-- `str` writes for it.
use mixapi.Shared.{Bool, Option, none, some, List, [], ◌∷◌, String, ◌==◌, if◌then◌else◌}
use mixapi.Shared.Int.{ℤ}

mutual
  pub data Value : Type 0 where
    null : Value
    bool : Bool → Value
    int : ℤ → Value
    float : String → Value
    str : String → Value
    arr : Items → Value
    obj : Fields → Value

  pub data Fields : Type 0 where
    end : Fields
    field : String → Value → Fields → Fields

  pub data Items : Type 0 where
    nil : Items
    cons : Value → Items → Items

-- `fields.get(key)`
abbrev pub get : String → Fields → Option Value
get k end = none
get k (field j v fs) = if j == k then some v else get k fs

abbrev pub to_list : Items → List Value
to_list nil = []
to_list (cons v vs) = v ∷ to_list vs

-- `value.get(key)`, where `isinstance(value, dict)`; `none` where it is no dict or has no such key.
abbrev pub get_in : String → Option Value → Option Value
get_in k (some (obj fs)) = get k fs
get_in k _ = none

-- `isinstance(value, str)`
abbrev pub as_str : Option Value → Option String
as_str (some (str s)) = some s
as_str _ = none
