-- ===== src/Redis/Scripts.antt =====
-- The script cache of the Redis server, and what `_eval` makes of it
-- (src/throttlekit/redis_backend.py).
use throttlekit_py.Base.{
  String, ℤ, Bool, true, false, Option, List, [], ◌∷◌, ◌≡◌, refl, ap, Bool-cases, inl, inr, ◌∙◌,
}
use throttlekit_py.Errors.{Exn, foreign, Result, ok, err}
use throttlekit_py.Strategies.{Strategy}
use throttlekit_py.Contract.{Files, Script, manifest_scripts}
use throttlekit_py.Redis.{
  RedisClient, RedisBackend, Call, is_noscript, full_key, now_or_zero, after_evalsha, eval_script,
  decode_reply, check,
}
use throttlekit_py.Redis.Argv.{lua_args, lua_file, prepare_vendored}

-- What Redis documents of EVAL and EVALSHA, with `run` the effect of a script: `eval` runs it;
-- `evalsha` runs it if the server has it, and otherwise raises redis-py's `NoScriptError` and
-- changes nothing. A script that runs does not itself report a missing script.
pub record ServesScripts {W : Type 0} (client : RedisClient W) (sha1_hex : String → String)
    : Type 0 where
  pub run : Call W
  pub cached : String → W → Bool
  pub eval_runs :
      (source : String) (keys : List String) (argv : List ℤ) (w : W)
      → client.eval source keys argv w ≡ run source keys argv w
  pub evalsha_hit :
      (source : String) (keys : List String) (argv : List ℤ) (w : W)
      → cached (sha1_hex source) w ≡ true
      → client.evalsha (sha1_hex source) keys argv w ≡ run source keys argv w
  pub evalsha_miss :
      (sha1 : String) (keys : List String) (argv : List ℤ) (w : W)
      → cached sha1 w ≡ false
      → client.evalsha sha1 keys argv w
        ≡ (err (foreign "NoScriptError" "No matching script. Please use EVAL."), w)
  pub runs_known :
      (source : String) (keys : List String) (argv : List ℤ) (w : W) (e : Exn)
      → (run source keys argv w).0 ≡ err e
      → is_noscript e ≡ false

miss_is_noscript :
    is_noscript (foreign "NoScriptError" "No matching script. Please use EVAL.") ≡ true
unfolding is_noscript
miss_is_noscript = refl

-- A raw `NOSCRIPT` error of another client counts too, and an unrelated one does not.
other_errors :
    (is_noscript (foreign "ResponseError" "NOSCRIPT No such key") ≡ true)
    × (is_noscript (foreign "ConnectionError" "Connection refused") ≡ false)
unfolding is_noscript
other_errors = (refl, refl)

module _ {W : Type 0} (client : RedisClient W) (files : Files)
    (server : ServesScripts client files.sha1_hex) where
  after_hit :
      (sc : Script) (keys : List String) (argv : List ℤ) (out : Result (List ℤ) × W)
      → ((e : Exn) → out.0 ≡ err e → is_noscript e ≡ false)
      → after_evalsha client sc keys argv out ≡ out
  unfolding after_evalsha
  after_hit sc keys argv (ok raw, w) known = refl
  after_hit sc keys argv (err e, w) known = rw (known e refl)

  after_miss :
      (sc : Script) (keys : List String) (argv : List ℤ) (w : W)
      → after_evalsha client sc keys argv
          (err (foreign "NoScriptError" "No matching script. Please use EVAL."), w)
        ≡ server.run sc.source keys argv w
  unfolding after_evalsha
  after_miss sc keys argv w = rw miss_is_noscript (server.eval_runs sc.source keys argv w)

  -- Whether or not the server has the script, `_eval` has the effect and the reply of one run of it.
  eval_script_runs :
      (sc : Script) (keys : List String) (argv : List ℤ) (w : W)
      → sc.sha1 ≡ files.sha1_hex sc.source
      → eval_script client sc keys argv w ≡ server.run sc.source keys argv w
  unfolding eval_script
  eval_script_runs sc keys argv w named =
      let asked = ap (λ h. client.evalsha h keys argv w) named in
      elim (Bool-cases (server.cached (files.sha1_hex sc.source) w)) [
        | inl hit ↦
            ap (after_evalsha client sc keys argv)
              (asked ∙ server.evalsha_hit sc.source keys argv w hit)
            ∙ after_hit sc keys argv (server.run sc.source keys argv w)
                (server.runs_known sc.source keys argv w)
        | inr miss ↦
            ap (after_evalsha client sc keys argv)
              (asked ∙ server.evalsha_miss (files.sha1_hex sc.source) keys argv w miss)
            ∙ after_miss sc keys argv w
      ]

  -- `check` is one run of the strategy's own script, on the prefixed key and with the arguments in
  -- the script's order, whose reply it decodes; no time given stands for the argument 0. The state of
  -- the server's script cache changes nothing.
  pub check_runs_script :
      (s : Strategy) (prefix key : String) (cost : ℤ) (now : Option ℤ) (w : W)
      → let b : RedisBackend W = record { client = client; strategy = s; prefix = prefix } in
        check files manifest_scripts b key cost now w
        ≡ decode_reply (
            server.run
              (files.read_text (lua_file s))
              (full_key prefix key ∷ [])
              (lua_args s (now_or_zero now) cost)
              w)
  unfolding check
  check_runs_script s prefix key cost now w =
      let (sc, prepared, text, named) = prepare_vendored files s (now_or_zero now) cost in
      rw prepared (
        ap decode_reply (
          eval_script_runs sc (full_key prefix key ∷ []) (lua_args s (now_or_zero now) cost) w named
          ∙ ap
              (λ source.
                server.run source (full_key prefix key ∷ []) (lua_args s (now_or_zero now) cost) w)
              text))
