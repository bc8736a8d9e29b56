-- ===== src/Lib.antt =====
-- MixAPI is a gateway before model providers: a request names a logical model, the gateway picks
-- provider models that can serve it, reserves quota, dispatches with fallback, and settles what was
-- used. This library models the core of that path.
--
-- Parts, and how they interact:
-- * mixapi/errors.py is Errors: one function per error, with its type, code and status.
-- * mixapi/redis_scripts.py and the client are Redis: a store is a parameter with the documented laws
--   of GET, SET and DEL; `Redis.call` runs a script as one step, or raises. Redis.Memory is a store
--   that has the laws.
-- * mixapi/quota.py and mixapi/runtime/quota.py are Runtime.Quota, script by script and method by
--   method. Runtime.Holds is the abstract account that Runtime.Quota.Tokens and Runtime.Quota.Runs
--   compare the token scripts with; Runtime.Quota.Counters is about the other counters.
-- * mixapi/budget.py and mixapi/runtime/budget.py are Runtime.Budget, without the database.
-- * mixapi/circuits.py and mixapi/runtime/circuits.py are Runtime.Circuits; the server's clock is an
--   argument, and a key is dropped when its time is over.
-- * mixapi/runtime/idempotency.py is Runtime.Idempotency, mixapi/runtime/sessions.py Runtime.Sessions.
-- * mixapi/runtime/snapshots.py is Runtime.Snapshots, and `_publish_snapshot` of mixapi/publication.py
--   is Publication, `_validate` Publication.Validation,
--   `_rebuild_locked` Publication.Rebuild. Runtime.Snapshots.History is the step relation of publishers, rebuilds, retention
--   and expiry, one atomic command at a time.
-- * mixapi/models.py is Models; mixapi/routing.py is Routing.Requirements (what a request asks for) and
--   Routing.Order (scores, order, `plan_route`).
-- * `response_schema` of mixapi/structured_output.py is StructuredOutput.
-- * The dispatch of mixapi/app.py is App.Dispatch: App.Dispatch.Loops has
--   `_dispatch_response_with_fallback` and `_dispatch_embedding_with_fallback`, which call the quota
--   methods of Runtime.Quota; the providers, the circuit breaker and the schema validator are an
--   interface (`Gateway`). App.Dispatch.Billing has the totals, the usage events and the public error.
-- * App.Estimates has the cost and token estimates of mixapi/app.py and `_budget_eligible_candidates`;
--   App.Admission the reservations that come before a dispatch. mixapi/validation.py is Validation.
-- * mixapi/auth.py is Auth, as far as a principal and its scopes go.
-- * `create_response` and `create_embedding` of mixapi/app.py are App.Handlers: the services and the
--   state behind them are App.Handlers itself, with the database as an interface (`Ledger`);
--   App.Handlers.Opening is what comes before the dispatch (session, routing, circuits, reservations,
--   intent), App.Handlers.Closing what follows it (settlement, release, route decision, payload,
--   record), App.Handlers.Endpoints the two handlers. Exec.Ends has the rules by which the ends of a
--   call are proved.
-- * Money counts decimals in units of 10^-8, and rounds as `quantize` does.
--
-- Bounds and fuel: every loop is a recursion on a list, or on the number of rounds with one candidate
-- (2 with a schema, 1 without), so no fuel can run out.
--
-- Not modelled: the hash of the rendezvous order (a parameter), the expiry of keys other than those
-- of the circuits, metrics and spans, the HTTP layer, the event stream (a streamed answer is a parameter
-- of `create_response`), the resolution of API keys, the JSON form of a configuration snapshot (a
-- parameter, assumed to be read back as it was written), the rest of a publication (`publish`, and
-- the lock of `rebuild`), the database (an interface, of which a theorem says what it assumes), and the
-- HTTP clients of the providers.
pub mod Shared
pub mod Errors
pub mod Exec
pub mod Redis
pub mod Runtime
pub mod Json
pub mod Money
pub mod Models
pub mod StructuredOutput
pub mod App
pub mod Routing
pub mod Validation
pub mod Auth
pub mod Publication
pub mod Tests
