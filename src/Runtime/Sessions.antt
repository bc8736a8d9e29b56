-- ===== src/Runtime/Sessions.antt =====
-- mixapi/runtime/sessions.py: the connection that a session of a tenant sticks to. How long it is
-- kept is left out, and so is the part of the keys that all of them share. These calls go to the client
-- without the guard of the Lua scripts.
use mixapi.Shared.{Option, none, some, String, ◌==◌, if◌then◌else◌}
use Prim.Native.String.{◌++◌}
use mixapi.Redis.{Redis}

-- `_key`: a tenant and a session, joined by a colon.
abbrev pub session_key : String → String → String
session_key tenant session = tenant ++ (":" ++ session)

module _ (R : Redis String String) where
  -- An empty text counts as none.
  unfoldable pub get_connection_id : String → String → R.State → Option String
  get_connection_id tenant session s = elim (R.get s (session_key tenant session)) [
    | none ↦ none
    | some v ↦ if v == "" then none else some v
  ]

  unfoldable pub set_connection_id : String → String → String → R.State → R.State
  set_connection_id tenant session connection s = R.set s (session_key tenant session) connection
