-- ===== src/Ratelimit.antt =====
-- src/throttlekit/ratelimit.py: checkers, and the decorator `rate_limit`. What is called may change
-- the state `W` of the world and may raise. Whether a callable is a coroutine function is asyncio's to
-- say and stands in a field; a worker thread runs its call as the caller would.
pub mod Doors
pub mod Services
pub mod Direct
mod Tests
use throttlekit_py.Base.{String, ℤ, Bool, true, false, Option, none, some, not, if◌then◌else◌}
use throttlekit_py.Decision.{Decision}
use throttlekit_py.Errors.{Exn, Result, ok, err, rate_limited, type_error}

-- What a call with state hands on to the rest of the body; its exception passes over the rest.
infixl 5 ◌▸◌
abbrev pub ◌▸◌ {ℓ κ} :
    {W : Type 0} {Value : Type ℓ} {Next : Type κ}
    → Result Value × W
    → (Value → W → Result Next × W)
    → Result Next × W
(err raised, w) ▸ rest = (err raised, w)
(ok value, w) ▸ rest = rest value w

-- An awaitable: what awaiting it does, and its method `close`, if it has one.
pub record Awaitable (W : Type 0) : Type 0 where
  pub run : W → Result Decision × W
  pub close : Option (W → W)

-- What a checker returns.
pub data Outcome (W : Type 0) : Type 0 where
  decided : Decision → Outcome W
  awaitable : Awaitable W → Outcome W

-- A checker, and whether `_is_async_callable` holds of it.
pub record Checker (W : Type 0) : Type 0 where
  pub is_async : Bool
  pub call : String → ℤ → W → Result (Outcome W) × W

-- `_PolicyBackend`: `check` takes a policy first.
pub record PolicyBackend (W : Type 0) : Type 0 where
  pub is_async : Bool
  pub check : String → String → ℤ → W → Result (Outcome W) × W

-- A function to decorate, its result awaited if it is a coroutine function.
pub record Function (W A B : Type 0) : Type 0 where
  pub is_async : Bool
  pub call : A → W → Result B × W

module _ {W : Type 0} where
  -- `await outcome`; a decision cannot be awaited.
  unfoldable pub await_outcome : Outcome W → W → Result Decision × W
  await_outcome (decided d) w = (err type_error, w)
  await_outcome (awaitable a) w = a.run w

  -- A coroutine that was never started has nothing to undo when it is closed.
  unfoldable pub coroutine : (W → Result Decision × W) → Awaitable W
  coroutine body = record { run = body; close = some (λ w. w) }

  unfoldable pub bind_policy : PolicyBackend W → String → Checker W
  unfolding coroutine
  bind_policy backend policy =
      if backend.is_async
      then record {
        is_async = true;
        call = λ key cost w. (
          ok (awaitable (coroutine (λ w'. backend.check policy key cost w' ▸ await_outcome))),
          w,
        );
      }
      else record { is_async = false; call = backend.check policy }

  abbrev pub close_it : Option (W → W) → W → W
  close_it none w = w
  close_it (some close) w = close w

  -- What `_resolve_sync` does with the outcome.
  unfoldable pub take_outcome : Outcome W → W → Result Decision × W
  take_outcome (decided d) w = (ok d, w)
  take_outcome (awaitable a) w = (err type_error, close_it a.close w)

  unfoldable pub resolve_sync : Checker W → String → ℤ → W → Result Decision × W
  resolve_sync checker key cost w = checker.call key cost w ▸ take_outcome

  unfoldable pub resolve_async : Checker W → String → ℤ → W → Result Decision × W
  resolve_async checker key cost w =
      if checker.is_async
      then checker.call key cost w ▸ await_outcome
      else resolve_sync checker key cost w

  -- `if not decision.allowed: raise RateLimited(decision)`, then the function.
  unfoldable pub admit_call : {A B : Type 0} → Function W A B → A → Decision → W → Result B × W
  admit_call fn args d w = if d.allowed then fn.call args w else (err (rate_limited d), w)

  -- `awrapper` or `wrapper`.
  unfoldable pub rate_limit :
      {A B : Type 0}
      → Checker W
      → (A → W → Result String × W)
      → ℤ
      → Function W A B
      → A
      → W
      → Result B × W
  rate_limit checker key cost fn args w = key args w ▸ (λ k w'.
      (if fn.is_async then resolve_async checker k cost w' else resolve_sync checker k cost w')
      ▸ admit_call fn args)
