-- ===== src/Ratelimit/Direct.antt =====
-- The direct doors as checkers: `RedisBackend.check` (src/throttlekit/redis_backend.py) and
-- `AsyncRedisBackend.check` (redis_backend_async.py), which take a key first, under `rate_limit`.
use throttlekit_py.Base.{
  String, ℤ, pos, Bool, true, false, Bool-cases, none, List, [], ◌∷◌, ◌≡◌, refl, ◌∙◌, inl, inr,
  if◌then◌else◌,
}
use throttlekit_py.Errors.{Result, ok}
use throttlekit_py.Strategies.{Strategy}
use throttlekit_py.Contract.{Files, manifest_scripts}
use throttlekit_py.Redis as Sync
use throttlekit_py.Redis.{full_key}
use throttlekit_py.Redis.Argv.{lua_args, lua_file}
use throttlekit_py.Redis.Scripts.{ServesScripts, check_runs_script}
use throttlekit_py.RedisAsync.{AsyncRedisClient, AsyncRedisBackend, check}
use throttlekit_py.RedisAsync.Scripts.{awaited, runs_in, async_check_runs_once}
use throttlekit_py.Ratelimit.{
  ◌▸◌, decided, awaitable, Checker, Function, await_outcome, coroutine, take_outcome, resolve_sync,
  resolve_async, rate_limit,
}
use throttlekit_py.Ratelimit.Doors.{guarded_call, decided_taken, resolved_guards}

module _ {W : Type 0} where
  -- `RedisBackend(…).check`, with `now` left out as a checker's caller does.
  unfoldable pub redis_checker : Files → Sync.RedisBackend W → Checker W
  redis_checker files b = record {
    is_async = false;
    call = λ key cost w.
        Sync.check files manifest_scripts b key cost none w ▸ (λ d w'. (ok (decided d), w'));
  }

  -- `AsyncRedisBackend(…).check`, a coroutine function.
  unfoldable pub async_redis_checker : (W → W) → Files → AsyncRedisBackend W → Checker W
  unfolding coroutine
  async_redis_checker others files b = record {
    is_async = true;
    call = λ key cost w.
        (ok (awaitable (coroutine (check others files manifest_scripts b key cost none))), w);
  }

  redis_resolves :
      (files : Files) (b : Sync.RedisBackend W) (key : String) (cost : ℤ) (is_async : Bool) (w : W)
      → (if is_async
          then resolve_async (redis_checker files b) key cost w
          else resolve_sync (redis_checker files b) key cost w)
        ≡ Sync.check files manifest_scripts b key cost none w
  unfolding resolve_async resolve_sync take_outcome redis_checker
  redis_resolves files b key cost is_async w =
      let plain = decided_taken (Sync.check files manifest_scripts b key cost none w) in
      elim (Bool-cases is_async) [ inl async ↦ rw async plain | inr sync ↦ rw sync plain ]

  async_redis_resolves :
      (others : W → W) (files : Files) (b : AsyncRedisBackend W) (key : String) (cost : ℤ)
      (is_async : Bool) (w : W)
      → is_async ≡ true
      → (if is_async
          then resolve_async (async_redis_checker others files b) key cost w
          else resolve_sync (async_redis_checker others files b) key cost w)
        ≡ check others files manifest_scripts b key cost none w
  unfolding resolve_async resolve_sync await_outcome async_redis_checker coroutine
  async_redis_resolves others files b key cost is_async w async = rw async refl

module _ {W A B : Type 0} (others : W → W) (client : AsyncRedisClient W) (files : Files)
    (server : ServesScripts (awaited client) files.sha1_hex) where
  -- A function decorated with the check of a `RedisBackend`, and a coroutine function decorated with that of an
  -- `AsyncRedisBackend`: each call derives the key, and then runs the strategy's own script once on the
  -- prefixed key, by the server's clock, for the cost; for the async one in the state that other tasks
  -- have left if the server lacked the script. The body runs if and only if the reply decodes to an allow;
  -- a denial is raised as RateLimited with the decision, and an exception of the key function, the
  -- server or the decoding as it is.
  pub redis_call_guarded :
      (s : Strategy) (prefix : String) (key : A → W → Result String × W) (cost : ℤ)
      (fn : Function W A B) (args : A) (w : W)
      → let source = files.read_text (lua_file s) in
        let run : String → W → Result (List ℤ) × W =
          λ k. server.run source (full_key prefix k ∷ []) (lua_args s (pos 0) cost) in
        (rate_limit
            (redis_checker files
              (record { client = awaited client; strategy = s; prefix = prefix }))
            key
            cost
            fn
            args
            w
          ≡ guarded_call key (λ k w'. Sync.decode_reply (run k w')) fn.call args w)
        × (fn.is_async ≡ true
            → rate_limit
                (async_redis_checker others files
                  (record { client = client; strategy = s; prefix = prefix }))
                key
                cost
                fn
                args
                w
              ≡ guarded_call key
                  (λ k w'. Sync.decode_reply (run k (runs_in others client files server source w')))
                  fn.call
                  args
                  w)
  redis_call_guarded s prefix key cost fn args w = (
    resolved_guards _ _ key cost fn args w (λ k w'.
        redis_resolves files (record { client = awaited client; strategy = s; prefix = prefix }) k
          cost fn.is_async w'
        ∙ check_runs_script (awaited client) files server s prefix k cost none w'),
    λ async. resolved_guards _ _ key cost fn args w (λ k w'.
        async_redis_resolves others files
          (record { client = client; strategy = s; prefix = prefix }) k cost fn.is_async w' async
        ∙ async_check_runs_once others client files server s prefix k cost none w'),
  )
