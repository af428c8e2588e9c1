-- ===== src/Lib.antt =====
-- A model of throttlekit, the Python client of a rate-limiting service.
--
-- The program has three ways to a limit. `RedisBackend` (src/throttlekit/redis_backend.py) runs the script
-- of a strategy (strategies.py) in Redis, which it finds by the vendored manifest (_contract.py).
-- `ServiceBackend` (service_backend.py) asks a server by gRPC; it also holds admissions, slots that a
-- background thread renews by heartbeats until they are released. `FleetBackend` (fleet_backend.py)
-- leases units from a server and spends them locally by a `LeaseSpender` (lease_spender.py). A failed
-- RPC becomes an exception of errors.py (_grpc.py). Each door gives a `Decision` (decision.py), of which
-- headers.py makes HTTP headers. ratelimit.py binds a door to a policy as a checker and decorates
-- functions with it; the adapters in contrib/ do that for the requests of four web frameworks. Each
-- backend has a twin for asyncio (*_async.py). __init__.py imports the backends when they are asked for,
-- scripts/sync_contract.py vendors the manifest and the scripts, and scripts/gen_proto.py makes the gRPC
-- stubs, at each build by hatch_build.py.
--
-- Files, with the code each is about:
-- - Base and its modules: integers as the native numbers with a sign, texts, dicts in insertion order
--   with text keys, Boolean tests; no code of its own.
-- - Decision, Errors: decision.py, errors.py. `Result` is a value or an exception.
-- - Grpc: _grpc.py. `Reply` is what an RPC ends with; Grpc/Mapping is about the exceptions.
-- - Spender: lease_spender.py. `LeaseSpender` has the fields of the object, and `spend`, `apply_lease`
--   and `reset` give the object after the call. Branches has single calls, Windows the rolling of a
--   window, History sequences of calls.
-- - Fleet: fleet_backend.py. `check` is `LeasedLimiter.check`, `round` the body of its loop and `rounds`
--   the loop. Rounds and Budget account for the units, Windows for those of one window, Denials for the
--   answers, Progress for the end of the loop.
-- - FleetAsync: fleet_backend_async.py, `AsyncLeasedLimiter.check` from await to await, and the steps of
--   calls that share a limiter. FleetAsync/Backend has `AsyncFleetBackend`, and a call that runs alone
--   with the service that answers it (`check_alone`); Alone compares it with Fleet. FleetAsync/Fleet is a
--   step relation of many such clients on one service, where a request is served at one time and its reply
--   comes back at another, or never.
-- - Headers: headers.py. Waits has the times, Styles the choice of headers.
-- - Strategies, Contract, Redis: strategies.py, _contract.py with _scripts/manifest.json, and
--   redis_backend.py. `eval_script` is `_eval`. Contract/Caches is _contract.py with its `lru_cache` and
--   `cache`, as `cached_manifest` and `cached_script`; Redis uses the uncached `script`.
-- - Service: service_backend.py. Service has the plain calls; Service/Admission has `Admission`,
--   `_HeartbeatPump`, `admit`, `release` and a beat of the pump, over a store of admissions, since the
--   caller and the pump share the object. Service/Lifecycle is a step relation of the callers' threads
--   and the pumps', with a step for each access that no lock guards: several threads may release one
--   admission, and `_ensure_pump` may make several pumps. Invariant is about the releases, Late about those
--   of an admission that is marked already, Leases and Renewals about the leases that the kept pump
--   renews. Service/Thread is the pump's thread with `close`; Stopping is about the heartbeats after it, Alive
--   about those before. Service/Blocks has `with` blocks, of an
--   admission (`with_admit`) and of the backend, over bodies that may raise.
-- - ServiceAsync: service_backend_async.py. ServiceAsync has the plain calls; ServiceAsync/Admission what
--   `admit`, `release`, the pump's task and `close` do between two awaits; ServiceAsync/Calls has the
--   coroutines with their RPCs, and Blocks is about the end of an `async with` block; ServiceAsync/Loop is
--   a step relation of the tasks of an event loop, with Releases, Renewals, Alive and Closing about it.
-- - RedisAsync: redis_backend_async.py, with what others do between its two awaits.
-- - Monitor, MonitorAsync: monitor_backend.py and monitor_backend_async.py, the reading of a snapshot.
-- - Ratelimit: ratelimit.py. `Checker` is a callable with what asyncio says of it. Doors is about
--   backends that are bound to a policy, Services about the service backends so bound, Direct about the
--   Redis backends, whose `check` is a checker as it is.
-- - Contrib: contrib/starlette.py, fastapi.py, django.py and flask.py, with one file each, and Gate, when
--   they let the application run. Gate/Services has them in front of the service backends.
-- - Package: __init__.py, `__all__`, the import statements, and `__getattr__` with its table. `declared` has
--   what the submodules' files declare.
-- - Vendor: scripts/sync_contract.py, `main` over a checkout and the two directories. Vendored and Failures
--   are about its runs, Loading about what _contract.py finds afterwards.
-- - Build: scripts/gen_proto.py, hatch_build.py and scripts/check_wheel_stubs.py, from the proto to a wheel.
-- - Examples: examples/concurrency_admit.py (Examples/Admissions), examples/llm_token_budget.py and
--   examples/service_backend.py (Examples/Budgets), as programs over Service and Service/Blocks, and
--   examples/redis_backend.py, examples/fastapi_app.py and examples/async_service_backend.py (Examples/Doors),
--   over the doors and the adapter that they use.
--
-- What is outside is a parameter: the state of the world `W` with the stubs of gRPC, the client of Redis,
-- the contents of files and their digests, json, the import system, the clock, and the frameworks'
-- responses. On an event loop a task runs without others from one await to the next, so that is one step;
-- a task that is cancelled stops at its await.
--
-- Bounds. The loop of `LeasedLimiter.check` has the 1024 rounds of the source, and so `check_alone` has
-- 1024 awaits. `str` of an integer n takes n + 1 rounds of dividing by ten, more than it has digits.
-- The true divisions of headers.py are taken exactly, which agrees with Python's floats below 2 ^ 42
-- milliseconds. Python's integers have no bound, and the model's have none.
--
-- Not modelled: the making of channels and credentials, costs that are floats, the Lua scripts, which Redis
-- runs, `parsed` of a snapshot, command lines and printing. In Service/Blocks an admission
-- is released by the thread that has made it. A release takes its lease from the pump and begins its call
-- in one step of Service/Lifecycle.
pub mod Base
pub mod Decision
pub mod Errors
pub mod Grpc
pub mod Spender
pub mod Fleet
pub mod FleetAsync
pub mod Headers
pub mod Strategies
pub mod Contract
pub mod Redis
pub mod RedisAsync
pub mod Service
pub mod ServiceAsync
pub mod Monitor
pub mod Ratelimit
pub mod Contrib
pub mod Package
pub mod Vendor
pub mod MonitorAsync
pub mod Build
pub mod Examples
