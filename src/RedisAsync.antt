-- ===== src/RedisAsync.antt =====
-- src/throttlekit/redis_backend_async.py: `AsyncRedisBackend`. The client's calls are awaited: between a
-- failed EVALSHA and the EVAL other tasks and other clients of the server run, which is the argument
-- `others`. `_is_noscript` and `_decode` are those of Redis, as in the source.
pub mod Scripts
mod Tests
use throttlekit_py.Base.{String, ℤ, Option, List, [], ◌∷◌, if◌then◌else◌}
use throttlekit_py.Decision.{Decision}
use throttlekit_py.Errors.{Result, ok, err, ◌>>=◌}
use throttlekit_py.Strategies.{Strategy, kind}
use throttlekit_py.Contract.{Files, Entry, Script, script}
use throttlekit_py.Redis.{Call, is_noscript, decode, argv_of, values_of, full_key, now_or_zero}

-- `AsyncRedisClientLike`, each call with its await.
pub record AsyncRedisClient (W : Type 0) : Type 0 where
  pub evalsha : Call W
  pub eval : Call W

pub record AsyncRedisBackend (W : Type 0) : Type 0 where
  pub client : AsyncRedisClient W
  pub strategy : Strategy
  pub prefix : String

-- The first lines of `check`: the script and its arguments.
unfoldable pub prepare : Files → List Entry → Strategy → ℤ → ℤ → Result (Script × List ℤ)
prepare files entries strategy now cost = do
  s ← script files entries (kind strategy) "check"
  argv ← argv_of (values_of strategy now cost) s.argv
  ok (s, argv)

module _ {W : Type 0} (others : W → W) where
  -- The `except` of `_eval`.
  unfoldable pub after_evalsha :
      AsyncRedisClient W → Script → List String → List ℤ → Result (List ℤ) × W → Result (List ℤ) × W
  after_evalsha client s keys argv (ok raw, w) = (ok raw, w)
  after_evalsha client s keys argv (err e, w) =
      if is_noscript e then client.eval s.source keys argv (others w) else (err e, w)

  unfoldable pub eval_script :
      AsyncRedisClient W → Script → List String → List ℤ → W → Result (List ℤ) × W
  unfolding after_evalsha
  eval_script client s keys argv w =
      after_evalsha client s keys argv (client.evalsha s.sha1 keys argv w)

  abbrev pub decode_reply : Result (List ℤ) × W → Result Decision × W
  decode_reply (raw, w) = (raw >>= decode, w)

  abbrev send : AsyncRedisBackend W → String → Result (Script × List ℤ) → W → Result Decision × W
  send b key (err e) w = (err e, w)
  send b key (ok (s, argv)) w =
      decode_reply (eval_script b.client s (full_key b.prefix key ∷ []) argv w)

  unfoldable pub check :
      Files → List Entry → AsyncRedisBackend W → String → ℤ → Option ℤ → W → Result Decision × W
  check files entries b key cost now w =
      send b key (prepare files entries b.strategy (now_or_zero now) cost) w
