-- ===== src/RedisAsync/Scripts.antt =====
-- What other tasks and other clients between EVALSHA and EVAL make of `_eval`
-- (src/throttlekit/redis_backend_async.py).
use throttlekit_py.Base.{
  String, ℤ, true, false, Option, List, [], ◌∷◌, ◌≡◌, refl, ap, Bool-cases, inl, inr, ◌∙◌,
  if◌then◌else◌,
}
use throttlekit_py.Errors.{Exn, foreign, Result, ok, err}
use throttlekit_py.Strategies.{Strategy}
use throttlekit_py.Contract.{Files, Entry, Script, manifest_scripts}
use throttlekit_py.Redis as Sync
use throttlekit_py.Redis.{RedisClient, Call, is_noscript, full_key, now_or_zero}
use throttlekit_py.Redis.Argv.{lua_args, lua_file, prepare_vendored}
use throttlekit_py.Redis.Scripts.{ServesScripts}
use throttlekit_py.RedisAsync.{
  AsyncRedisClient, AsyncRedisBackend, prepare, after_evalsha, eval_script, decode_reply, check,
}

-- The two backends prepare the same call.
prepare-eq-prepare :
    (files : Files) (entries : List Entry) (s : Strategy) (now cost : ℤ)
    → prepare files entries s now cost ≡ Sync.prepare files entries s now cost
unfolding prepare Sync.prepare
prepare-eq-prepare files entries s now cost = refl

-- The server that the client's awaited calls reach.
abbrev pub awaited : {W : Type 0} → AsyncRedisClient W → RedisClient W
awaited client = record { evalsha = client.evalsha; eval = client.eval }

miss_is_noscript :
    is_noscript (foreign "NoScriptError" "No matching script. Please use EVAL.") ≡ true
unfolding is_noscript
miss_is_noscript = refl

module _ {W : Type 0} (others : W → W) (client : AsyncRedisClient W) (files : Files)
    (server : ServesScripts (awaited client) files.sha1_hex) where
  after_hit :
      (sc : Script) (keys : List String) (argv : List ℤ) (out : Result (List ℤ) × W)
      → ((e : Exn) → out.0 ≡ err e → is_noscript e ≡ false)
      → after_evalsha others client sc keys argv out ≡ out
  unfolding after_evalsha
  after_hit sc keys argv (ok raw, w) known = refl
  after_hit sc keys argv (err e, w) known = rw (known e refl)

  after_miss :
      (sc : Script) (keys : List String) (argv : List ℤ) (w : W)
      → after_evalsha others client sc keys argv
          (err (foreign "NoScriptError" "No matching script. Please use EVAL."), w)
        ≡ server.run sc.source keys argv (others w)
  unfolding after_evalsha
  after_miss sc keys argv w = rw miss_is_noscript (server.eval_runs sc.source keys argv (others w))

  -- The state of the world in which the script runs.
  abbrev pub runs_in : String → W → W
  runs_in source w = if server.cached (files.sha1_hex source) w then w else others w

  eval_script_runs_once :
      (sc : Script) (keys : List String) (argv : List ℤ) (w : W)
      → sc.sha1 ≡ files.sha1_hex sc.source
      → eval_script others client sc keys argv w
        ≡ server.run sc.source keys argv (runs_in sc.source w)
  unfolding eval_script
  eval_script_runs_once sc keys argv w named =
      let asked = ap (λ h. client.evalsha h keys argv w) named in
      elim (Bool-cases (server.cached (files.sha1_hex sc.source) w)) [
        | inl hit ↦ rw hit (
            ap (after_evalsha others client sc keys argv)
              (asked ∙ server.evalsha_hit sc.source keys argv w hit)
            ∙ after_hit sc keys argv (server.run sc.source keys argv w)
                (server.runs_known sc.source keys argv w))
        | inr miss ↦ rw miss (
            ap (after_evalsha others client sc keys argv)
              (asked ∙ server.evalsha_miss (files.sha1_hex sc.source) keys argv w miss)
            ∙ after_miss sc keys argv w)
      ]

  -- Whatever others do between the two calls, the async `check` is exactly one run of the strategy's
  -- own script: at once where the server has the script, and otherwise in the state that the others
  -- have left.
  pub async_check_runs_once :
      (s : Strategy) (prefix key : String) (cost : ℤ) (now : Option ℤ) (w : W)
      → let b : AsyncRedisBackend W = record { client = client; strategy = s; prefix = prefix } in
        let source = files.read_text (lua_file s) in
        check others files manifest_scripts b key cost now w
        ≡ decode_reply others (
            server.run source
              (full_key prefix key ∷ [])
              (lua_args s (now_or_zero now) cost)
              (runs_in source w))
  unfolding check
  async_check_runs_once s prefix key cost now w =
      let (sc, prepared, text, named) = prepare_vendored files s (now_or_zero now) cost in
      rw (prepare-eq-prepare files manifest_scripts s (now_or_zero now) cost, prepared)
        (ap (decode_reply others) (
          eval_script_runs_once sc (full_key prefix key ∷ []) (lua_args s (now_or_zero now) cost) w
            named
          ∙ ap
              (λ source.
                server.run source (full_key prefix key ∷ []) (lua_args s (now_or_zero now) cost)
                  (runs_in source w))
              text))
