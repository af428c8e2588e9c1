-- ===== src/Ratelimit/Doors.antt =====
-- The checkers of the service doors, and the calls that they admit
-- (src/throttlekit/ratelimit.py).
use throttlekit_py.Base.{
  String, ℤ, true, false, Bool-cases, ◌⊎◌, inl, inr, ◌≡◌, refl, ap, if◌then◌else◌,
}
use throttlekit_py.Decision.{Decision}
use throttlekit_py.Errors.{Result, ok, err, rate_limited, type_error}
use throttlekit_py.Ratelimit.{
  ◌▸◌, Checker, decided, awaitable, PolicyBackend, Function, await_outcome, coroutine, bind_policy,
  take_outcome, resolve_sync, resolve_async, admit_call, rate_limit,
}

module _ {W : Type 0} where
  -- A backend whose `check` returns decisions, or one whose `check` is a coroutine function.
  abbrev pub IsSyncBackend :
      PolicyBackend W → (String → String → ℤ → W → Result Decision × W) → Type 0
  IsSyncBackend backend check =
      (backend.is_async ≡ false)
      × ((policy key : String) (cost : ℤ) (w : W)
          → backend.check policy key cost w
            ≡ (check policy key cost w ▸ (λ d w'. (ok (decided d), w'))))

  abbrev pub IsAsyncBackend :
      PolicyBackend W → (String → String → ℤ → W → Result Decision × W) → Type 0
  IsAsyncBackend backend check =
      (backend.is_async ≡ true)
      × ((policy key : String) (cost : ℤ) (w : W)
          → backend.check policy key cost w
            ≡ (ok (awaitable (coroutine (check policy key cost))), w))

  pub decided_taken :
      (r : Result Decision × W) → (r ▸ (λ d w'. (ok (decided d), w')) ▸ take_outcome) ≡ r
  unfolding take_outcome
  decided_taken (ok d, w) = refl
  decided_taken (err e, w) = refl

  pub sync_resolves :
      (backend : PolicyBackend W) (check : String → String → ℤ → W → Result Decision × W)
      (policy key : String) (cost : ℤ) (w : W)
      → IsSyncBackend backend check
      → resolve_sync (bind_policy backend policy) key cost w ≡ check policy key cost w
  unfolding resolve_sync bind_policy
  sync_resolves backend check policy key cost w (plain, checks) =
      rw (plain, checks policy key cost w) (decided_taken (check policy key cost w))

  -- Bound to a policy and resolved from async code, a backend of either kind answers as its own check
  -- of that policy does, and leaves the world as that does.
  pub bind_policy_resolves :
      (backend : PolicyBackend W) (check : String → String → ℤ → W → Result Decision × W)
      (policy key : String) (cost : ℤ) (w : W)
      → IsSyncBackend backend check ⊎ IsAsyncBackend backend check
      → resolve_async (bind_policy backend policy) key cost w ≡ check policy key cost w
  unfolding resolve_async resolve_sync bind_policy await_outcome coroutine
  bind_policy_resolves backend check policy key cost w (inl (plain, checks)) =
      rw (plain, checks policy key cost w) (decided_taken (check policy key cost w))
  bind_policy_resolves backend check policy key cost w (inr (async, checks)) =
      rw (async, checks policy key cost w) refl

  -- A backend whose check is a coroutine function is refused where a decision is wanted at once: the
  -- call raises TypeError, and neither that backend nor the decorated function is called.
  sync_site_rejects_async :
      {A B : Type 0} (backend : PolicyBackend W) (policy key : String) (cost : ℤ)
      (fn : Function W A B) (args : A) (w : W)
      → backend.is_async ≡ true
      → fn.is_async ≡ false
      → rate_limit (bind_policy backend policy) (λ a w'. (ok key, w')) cost fn args w
        ≡ (err type_error, w)
  unfolding rate_limit resolve_sync bind_policy take_outcome coroutine
  sync_site_rejects_async backend policy key cost fn args w async plain = rw (async, plain) refl

  -- The specification of a decorated call: the key, the check, and the function if the check allows.
  abbrev pub guarded_call :
      {A B : Type 0}
      → (A → W → Result String × W)
      → (String → W → Result Decision × W)
      → (A → W → Result B × W)
      → A
      → W
      → Result B × W
  guarded_call key check body args w = key args w ▸ (λ k w'.
      check k w' ▸ (λ d w''. if d.allowed then body args w'' else (err (rate_limited d), w'')))

  -- A decorated call is guarded by what its checker resolves to.
  pub resolved_guards :
      {A B : Type 0} (checker : Checker W) (check : String → W → Result Decision × W)
      (key : A → W → Result String × W) (cost : ℤ) (fn : Function W A B) (args : A) (w : W)
      → ((k : String) (w' : W)
          → (if fn.is_async
              then resolve_async checker k cost w'
              else resolve_sync checker k cost w')
            ≡ check k w')
      → rate_limit checker key cost fn args w ≡ guarded_call key check fn.call args w
  unfolding rate_limit admit_call
  resolved_guards checker check key cost fn args w resolves = after_key (key args w)
    where
      after_key :
          (out : Result String × W)
          → (out ▸ (λ k w'.
              (if fn.is_async
                then resolve_async checker k cost w'
                else resolve_sync checker k cost w')
              ▸ admit_call fn args))
            ≡ (out ▸ (λ k w'. check k w' ▸ admit_call fn args))
      after_key (err e, w') = refl
      after_key (ok k, w') = ap (λ answer. answer ▸ admit_call fn args) (resolves k w')

  resolved_for :
      {A B : Type 0} (backend : PolicyBackend W)
      (check : String → String → ℤ → W → Result Decision × W) (policy k : String) (cost : ℤ)
      (fn : Function W A B) (w : W)
      → IsSyncBackend backend check ⊎ (IsAsyncBackend backend check × (fn.is_async ≡ true))
      → (if fn.is_async
          then resolve_async (bind_policy backend policy) k cost w
          else resolve_sync (bind_policy backend policy) k cost w)
        ≡ check policy k cost w
  resolved_for backend check policy k cost fn w (inr (suits, async)) =
      rw async (bind_policy_resolves backend check policy k cost w (inr suits))
  resolved_for backend check policy k cost fn w (inl suits) = elim (Bool-cases fn.is_async) [
    | inl async ↦ rw async (bind_policy_resolves backend check policy k cost w (inl suits))
    | inr plain ↦ rw plain (sync_resolves backend check policy k cost w suits)
  ]

  -- A call of a function decorated with a bound backend is a call guarded by the backend's check of the
  -- policy, if the backend's check is plain, or the function is a coroutine function.
  pub rate_limit_guards :
      {A B : Type 0} (backend : PolicyBackend W)
      (check : String → String → ℤ → W → Result Decision × W) (policy : String)
      (key : A → W → Result String × W) (cost : ℤ) (fn : Function W A B) (args : A) (w : W)
      → IsSyncBackend backend check ⊎ (IsAsyncBackend backend check × (fn.is_async ≡ true))
      → rate_limit (bind_policy backend policy) key cost fn args w
        ≡ guarded_call key (λ k. check policy k cost) fn.call args w
  rate_limit_guards backend check policy key cost fn args w suits =
      resolved_guards (bind_policy backend policy) (λ k. check policy k cost) key cost fn args w
        (λ k w'. resolved_for backend check policy k cost fn w' suits)
