-- ===== src/Ratelimit/Tests.antt =====
-- `rate_limit` with concrete doors, and each theorem about it at an input. The world is the number of
-- units that the limiter has left.
use throttlekit_py.Base.{
  ℕ, zero, suc, String, ℤ, pos, true, false, Bool, not, List, [], ◌∷◌, inl, ◌≡◌, refl,
  if◌then◌else◌,
}
use throttlekit_py.Decision.{Decision}
use throttlekit_py.Errors.{Exn, foreign, Result, ok, err, rate_limited}
use throttlekit_py.Strategies.{Strategy, gcra}
use throttlekit_py.Contract.{Files}
use throttlekit_py.Redis as Sync
use throttlekit_py.Redis.{is_noscript}
use throttlekit_py.Redis.Scripts.{ServesScripts}
use throttlekit_py.RedisAsync.{AsyncRedisClient}
use throttlekit_py.RedisAsync.Scripts.{awaited}
use throttlekit_py.Ratelimit.Direct.{redis_checker, async_redis_checker, redis_call_guarded}
use throttlekit_py.Ratelimit.{
  ◌▸◌, decided, awaitable, PolicyBackend, Function, coroutine, bind_policy, rate_limit,
}
use throttlekit_py.Ratelimit.Doors.{IsSyncBackend, IsAsyncBackend, rate_limit_guards, guarded_call}

abbrev answer : Bool → ℕ → Decision
answer allowed left = record {
  allowed = allowed;
  limit = pos 2;
  remaining = pos left;
  reset_at = pos 1000;
  retry_after_ms = pos 0;
}

abbrev take_one : String → String → ℤ → ℕ → Result Decision × ℕ
take_one policy key cost zero = (ok (answer false 0), 0)
take_one policy key cost (suc left) = (ok (answer true left), left)

abbrev sync_door : PolicyBackend ℕ
sync_door = record {
  is_async = false;
  check = λ policy key cost w. (take_one policy key cost w ▸ (λ d w'. (ok (decided d), w')));
}

abbrev async_door : PolicyBackend ℕ
async_door = record {
  is_async = true;
  check = λ policy key cost w. (ok (awaitable (coroutine (take_one policy key cost))), w);
}

sync_door-IsSyncBackend : IsSyncBackend sync_door take_one
sync_door-IsSyncBackend = (refl, λ policy key cost w. refl)

async_door-IsAsyncBackend : IsAsyncBackend async_door take_one
async_door-IsAsyncBackend = (refl, λ policy key cost w. refl)

abbrev handler : Function ℕ String String
handler = record { is_async = false; call = λ args w. (ok args, w) }

rate_limit_guards_example :
    rate_limit (bind_policy sync_door "api") (λ args w. (ok args, w)) (pos 1) handler "hello" 0
    ≡ (err (rate_limited (answer false 0)), 0)
rate_limit_guards_example =
    rate_limit_guards sync_door take_one "api" (λ args w. (ok args, w)) (pos 1) handler "hello" 0
      (inl sync_door-IsSyncBackend)

rate_limit_allows :
    guarded_call (λ args w. (ok args, w)) (λ k. take_one "api" k (pos 1)) handler.call "hello" 2
    ≡ (ok "hello", 1)
rate_limit_allows = refl

-- A client of a server whose scripts answer 1, 2, …; the state says whether they are cached.
abbrev no_script : Exn
no_script = foreign "NoScriptError" "No matching script. Please use EVAL."

abbrev reply : List ℤ
reply = pos 1 ∷ pos 2 ∷ pos 1 ∷ pos 1000 ∷ pos 0 ∷ []

abbrev client : AsyncRedisClient Bool
client = record {
  evalsha = λ sha1 keys argv w. if w then (ok reply, true) else (err no_script, w);
  eval = λ source keys argv w. (ok reply, true);
}

hit : (w : Bool) → w ≡ true → client.evalsha "" [] [] w ≡ (ok reply, true)
hit w h = rw h

miss : (w : Bool) → w ≡ false → client.evalsha "" [] [] w ≡ (err no_script, w)
miss w h = rw h

answered : (e : Exn) → ok reply ≡ err e → is_noscript e ≡ false
answered e h = cc

abbrev server : ServesScripts (awaited client) (λ text. text)
server = record {
  run = λ source keys argv w. (ok reply, true);
  cached = λ sha1 w. w;
  eval_runs = λ source keys argv w. refl;
  evalsha_hit = λ source keys argv w h. hit w h;
  evalsha_miss = λ sha1 keys argv w h. miss w h;
  runs_known = λ source keys argv w e h. answered e h;
}

abbrev files : Files
files = record { read_text = λ file. file; sha1_hex = λ text. text }

abbrev limit : Strategy
limit = gcra (pos 2) (pos 1000) (pos 2)

abbrev respond : Function Bool String String
respond = record { is_async = true; call = λ args w. (ok args, w) }

abbrev by_user : String → Bool → Result String × Bool
by_user user w = (ok user, w)

redis_call_guarded_example :
    (rate_limit
        (redis_checker files (record { client = awaited client; strategy = limit; prefix = "p" }))
        by_user
        (pos 1)
        respond
        "user"
        false
      ≡ guarded_call by_user (λ k w. Sync.decode_reply (ok reply, true)) respond.call "user" false)
    × (true ≡ true
        → rate_limit
            (async_redis_checker not files
              (record { client = client; strategy = limit; prefix = "p" }))
            by_user
            (pos 1)
            respond
            "user"
            false
          ≡ guarded_call by_user
              (λ k w. Sync.decode_reply (ok reply, true))
              respond.call
              "user"
              false)
redis_call_guarded_example =
    redis_call_guarded not client files server limit "p" by_user (pos 1) respond "user" false
