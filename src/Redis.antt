-- ===== src/Redis.antt =====
-- src/throttlekit/redis_backend.py: `RedisBackend`. The Redis client is outside: `evalsha` and
-- `eval` are functions of the state `W` of the world. Error texts are upper-cased as ASCII.
pub mod Argv
pub mod Scripts
mod Tests
use Prim.Native.Char.{code}
use throttlekit_py.Base.{
  ℕ, ◌-◌, String, ℤ, pos, negsuc, text_append, same_text, ltb, leb, ◌==◌, Dict, lookup, Bool, true,
  false, ◌&&◌, ◌||◌, Option, none, some, List, [], ◌∷◌, ◌++◌, map, if◌then◌else◌, length,
}
use throttlekit_py.Decision.{Decision}
use throttlekit_py.Errors.{Exn, foreign, Result, ok, err, index_error, ◌>>=◌}
use throttlekit_py.Strategies.{Strategy, kind, params, item}
use throttlekit_py.Contract.{Files, Entry, Script, script}

-- A text by its code points.
abbrev pub codes : String → List ℕ
codes String.[] = []
codes (String.◌∷◌ c s) = code c ∷ codes s

unfoldable pub upper : List ℕ → List ℕ
upper [] = []
upper (c ∷ s) = (if leb b'a' c && leb c b'z' then c - 32 else c) ∷ upper s

unfoldable pub has_prefix : List ℕ → List ℕ → Bool
has_prefix [] s = true
has_prefix (p ∷ ps) [] = false
has_prefix (p ∷ ps) (c ∷ s) = p == c && has_prefix ps s

-- `part in text`
unfoldable pub contains : List ℕ → List ℕ → Bool
unfolding has_prefix
contains part [] = has_prefix part []
contains part (c ∷ s) = has_prefix part (c ∷ s) || contains part s

-- `f"{type(err).__name__}: {err}"`, of an exception of the client.
abbrev pub blob_of : Exn → List ℕ
blob_of (foreign name text) = codes name ++ codes ": " ++ codes text
blob_of e = []

-- The other exceptions are the package's, which a client does not raise.
unfoldable pub is_noscript : Exn → Bool
unfolding upper contains
is_noscript e =
    let blob = upper (blob_of e) in
    contains (codes "NOSCRIPT") blob || contains (codes "NO MATCHING SCRIPT") blob

-- `tup[0] == 1`
abbrev pub is_one : ℤ → Bool
is_one (pos n) = n == 1
is_one (negsuc n) = false

-- The reply `[allowed, limit, remaining, resetAt, retryAfterMs]`; a shorter one raises.
unfoldable pub decode : List ℤ → Result Decision
decode (allowed ∷ limit ∷ remaining ∷ reset_at ∷ retry_after_ms ∷ rest) = ok (record {
  allowed = is_one allowed;
  limit = limit;
  remaining = remaining;
  reset_at = reset_at;
  retry_after_ms = retry_after_ms;
})
decode _ = err index_error

-- `evalsha` and `eval`: the script or its SHA-1, the keys and the arguments.
abbrev pub Call : Type 0 → Type 0
Call W = String → List String → List ℤ → W → Result (List ℤ) × W

pub record RedisClient (W : Type 0) : Type 0 where
  pub evalsha : Call W
  pub eval : Call W

pub record RedisBackend (W : Type 0) : Type 0 where
  pub client : RedisClient W
  pub strategy : Strategy
  pub prefix : String

-- `[values[name] for name in script.argv]`
unfoldable pub argv_of : Dict ℤ → List String → Result (List ℤ)
argv_of values [] = ok []
argv_of values (name ∷ names) = do v ← item values name; rest ← argv_of values names; ok (v ∷ rest)

-- `{"now": now_arg, "cost": cost, **self._strategy.params()}`; the names differ.
unfoldable pub values_of : Strategy → ℤ → ℤ → Dict ℤ
values_of s now cost = ("now", now) ∷ ("cost", cost) ∷ params s

unfoldable pub full_key : String → String → String
full_key prefix key = if same_text prefix "" then key else text_append prefix (text_append ":" key)

abbrev pub now_or_zero : Option ℤ → ℤ
now_or_zero none = pos 0
now_or_zero (some now) = now

-- The script of the strategy and its arguments; a missing one raises `KeyError`.
unfoldable pub prepare : Files → List Entry → Strategy → ℤ → ℤ → Result (Script × List ℤ)
prepare files entries strategy now cost = do
  s ← script files entries (kind strategy) "check"
  argv ← argv_of (values_of strategy now cost) s.argv
  ok (s, argv)

module _ {W : Type 0} where
  -- The `except` of `_eval`.
  unfoldable pub after_evalsha :
      RedisClient W → Script → List String → List ℤ → Result (List ℤ) × W → Result (List ℤ) × W
  after_evalsha client s keys argv (ok raw, w) = (ok raw, w)
  after_evalsha client s keys argv (err e, w) =
      if is_noscript e then client.eval s.source keys argv w else (err e, w)

  unfoldable pub eval_script :
      RedisClient W → Script → List String → List ℤ → W → Result (List ℤ) × W
  unfolding after_evalsha
  eval_script client s keys argv w =
      after_evalsha client s keys argv (client.evalsha s.sha1 keys argv w)

  abbrev pub decode_reply : Result (List ℤ) × W → Result Decision × W
  decode_reply (raw, w) = (raw >>= decode, w)

  -- `check`, once the script and the arguments are there.
  abbrev send : RedisBackend W → String → Result (Script × List ℤ) → W → Result Decision × W
  send b key (err e) w = (err e, w)
  send b key (ok (s, argv)) w =
      decode_reply (eval_script b.client s (full_key b.prefix key ∷ []) argv w)

  unfoldable pub check :
      Files → List Entry → RedisBackend W → String → ℤ → Option ℤ → W → Result Decision × W
  check files entries b key cost now w =
      send b key (prepare files entries b.strategy (now_or_zero now) cost) w
