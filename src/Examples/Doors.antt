-- ===== src/Examples/Doors.antt =====
-- examples/redis_backend.py, examples/fastapi_app.py and examples/async_service_backend.py, less what they
-- print. FastAPI, `asyncio.gather` and the closing of a client are outside.
use throttlekit_py.Base.{
  ℕ, zero, suc, String, pos, ℤ, Dict, str_int, text_append, true, false, Option, none, some, List,
  [], ◌∷◌, if◌then◌else◌,
}
use throttlekit_py.Decision.{Decision}
use throttlekit_py.Errors.{Result, ok, err}
use throttlekit_py.Strategies.{gcra}
use throttlekit_py.Contract.{Files, manifest_scripts}
use throttlekit_py.Redis.{RedisClient, RedisBackend}
use throttlekit_py.Redis as Redis
use throttlekit_py.Service.{RateLimiterStub}
use throttlekit_py.ServiceAsync as Async
use throttlekit_py.ServiceAsync.Admission.{AsyncAdmission, AsyncClient, close_pump_of}
use throttlekit_py.ServiceAsync.Calls.{admit, aexit}
use throttlekit_py.Ratelimit.{◌▸◌, bind_policy}
use throttlekit_py.Ratelimit.Services.{service_policy}
use throttlekit_py.Contrib.Fastapi.{
  DependencyEnd, returns, http_exception, raises, RateLimit, key_request_peer, dependency,
}

module _ {W : Type 0} (files : Files) (client : RedisClient W) where
  abbrev pub api : RedisBackend W
  api = record { client = client; strategy = gcra (pos 5) (pos 3600000) (pos 5); prefix = "demo" }

  -- `for i in range(n): d = api.check("user-1")`
  unfoldable pub redis_checks : ℕ → W → Result (Unit {0}) × W
  redis_checks zero w = (ok tt, w)
  redis_checks (suc n) w =
      Redis.check files manifest_scripts api "user-1" (pos 1) none w ▸ (λ d. redis_checks n)

  -- The client stays open when a check raises.
  unfoldable pub redis_main : (W → W) → W → Result (Unit {0}) × W
  unfolding redis_checks
  redis_main close w = redis_checks 7 w ▸ (λ u w'. (ok tt, close w'))

-- What FastAPI has of a request: the route's value with the headers, or an HTTP error, or another exception.
pub data Served (H : Type 0) : Type 0 where
  body : Dict String → H → Served H
  refused : DependencyEnd H → Served H

module _ {H W : Type 0} (stub : RateLimiterStub W) (clock : W → ℤ)
    (update : Dict String → H → H) where
  -- `limit_api`, for requests known by the host of their client.
  unfoldable pub limit_api : RateLimit (Option String) H W
  unfolding bind_policy service_policy key_request_peer
  limit_api = record {
    checker = bind_policy (service_policy stub) "api";
    key = λ peer w. (ok (key_request_peer peer), w);
    cost = pos 1;
    style = "ietf";
    on_unavailable = "allow";
    stamp_headers = true;
    clock = clock;
    update = update;
  }

  -- `items`, after its dependency.
  unfoldable pub items : DependencyEnd H → Served H
  items (returns h) = body (("status", "ok") ∷ []) h
  items (http_exception status detail headers) = refused (http_exception status detail headers)
  items (raises e) = refused (raises e)

  -- `GET /items`
  unfoldable pub get_items : Option String → H → W → Served H × W
  unfolding limit_api items dependency
  get_items peer h w = let (end, w') = dependency limit_api peer h w in (items end, w')

-- `asyncio.gather`, of calls that leave the admissions alone.
abbrev pub Gather : Type 0 → Type 0
Gather W = List (W → Result Decision × W) → W → Result (List Decision) × W

-- `[f"user-{i}" for i in range(…)]`, from the given number on.
unfoldable pub user_keys : ℕ → ℕ → List String
user_keys i zero = []
user_keys i (suc n) = text_append "user-" (str_int (pos i)) ∷ user_keys (suc i) n

module _ {W : Type 0} (stub : RateLimiterStub W) (others : AsyncClient → AsyncClient)
    (gather : Gather W) where
  abbrev checks_of : List String → List (W → Result Decision × W)
  checks_of [] = []
  checks_of (k ∷ ks) = Async.check stub "api" k (pos 1) ∷ checks_of ks

  -- The body of the block awaits `asyncio.sleep(0)` if the admission is allowed.
  abbrev slept : Option AsyncAdmission → AsyncClient → AsyncClient
  slept none c = c
  slept (some a) c = if a.decision.allowed then others c else c

  abbrev aexit_at :
      ℕ → Option AsyncAdmission → AsyncClient → W → Result (Unit {0}) × AsyncClient × W
  aexit_at i none c w = (ok tt, c, w)
  aexit_at i (some a) c w = aexit stub others false i a c w

  -- `adm = await rl.admit(…)` and `async with adm: …`
  unfoldable pub hold_once : Result ℕ × AsyncClient × W → Result (Unit {0}) × AsyncClient × W
  hold_once (err e, c, w) = (err e, c, w)
  hold_once (ok i, c, w) = let c' = slept (c.at i) c in aexit_at i (c'.at i) c' w

  unfoldable pub after_checks :
      AsyncClient → Result (List Decision) × W → Result (Unit {0}) × AsyncClient × W
  unfolding hold_once
  after_checks c (err e, w) = (err e, others c, w)
  after_checks c (ok ds, w) =
      hold_once (admit stub others "checkout" "user-1" (pos 1) (pos 0) (pos 1) false (others c) w)

  -- The body of the `async with` block of the backend. `gather` gives a decision for each call.
  unfoldable pub async_axes : AsyncClient → W → Result (Unit {0}) × AsyncClient × W
  unfolding after_checks user_keys
  async_axes c w =
      after_checks c
        (Async.check stub "api" "user-1" (pos 1) w ▸ (λ d. gather (checks_of (user_keys 0 5))))

  -- `aclose` follows the block, however it ends.
  unfoldable pub async_main : (W → W) → W → Result (Unit {0}) × AsyncClient × W
  unfolding async_axes close_pump_of
  async_main close_channel w =
      let (r, c, w') = async_axes (record { next = 0; at = λ i. none; pump = none }) w in
      (r, record c { pump = close_pump_of c.pump }, close_channel w')
