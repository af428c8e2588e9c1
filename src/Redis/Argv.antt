-- ===== src/Redis/Argv.antt =====
-- The arguments that `RedisBackend.check` sends (src/throttlekit/redis_backend.py), against the
-- vendored manifest and the scripts.
use throttlekit_py.Base.{String, ℤ, Dict, lookup, some, List, [], ◌∷◌, map, ◌≡◌, refl, arith}
use mathlib.Core.Path.{subst}
use throttlekit_py.Errors.{Result, ok, err}
use throttlekit_py.Strategies.{
  Strategy, gcra, token_bucket, fixed_window, sliding_window, sliding_window_log, kind, params,
  item,
}
use throttlekit_py.Contract.{Files, Script, script, manifest_scripts}
use throttlekit_py.Redis.{argv_of, values_of, prepare}

abbrev IsValues : Dict ℤ → List String → Result (List ℤ) → Type 0
IsValues values names (ok argv) = map (λ name. lookup name values) names ≡ map some argv
IsValues values names (err e) = Unit

argv_of-IsValues :
    (values : Dict ℤ) (names : List String) → IsValues values names (argv_of values names)
unfolding argv_of item
argv_of-IsValues values [] = refl
argv_of-IsValues values (name ∷ names) = ground (arith, argv_of-IsValues values names)

-- Whatever the order of the names in a manifest, the arguments are the values of the names, one for
-- one and in that order.
argv_of_values :
    (values : Dict ℤ) (names : List String) (argv : List ℤ)
    → argv_of values names ≡ ok argv
    → map (λ name. lookup name values) names ≡ map some argv
argv_of_values values names argv h = subst (IsValues values names) h (argv_of-IsValues values names)

-- What the script of a strategy reads: `ARGV[1]`, `ARGV[2]` and so on, by the names of its locals.
abbrev pub lua_args : Strategy → ℤ → ℤ → List ℤ
lua_args (gcra limit period burst) now cost = now ∷ period ∷ limit ∷ burst ∷ cost ∷ []
lua_args (token_bucket capacity refill_per_sec) now cost =
    now ∷ capacity ∷ refill_per_sec ∷ cost ∷ []
lua_args (fixed_window limit window) now cost = now ∷ limit ∷ window ∷ cost ∷ []
lua_args (sliding_window limit window_ms buckets) now cost =
    now ∷ window_ms ∷ limit ∷ cost ∷ buckets ∷ []
lua_args (sliding_window_log limit window_ms) now cost = now ∷ window_ms ∷ limit ∷ cost ∷ []

abbrev pub lua_file : Strategy → String
lua_file (gcra limit period burst) = "gcra.check.lua"
lua_file (token_bucket capacity refill_per_sec) = "tokenBucket.check.lua"
lua_file (fixed_window limit window) = "fixedWindow.check.lua"
lua_file (sliding_window limit window_ms buckets) = "slidingWindow.check.lua"
lua_file (sliding_window_log limit window_ms) = "slidingWindowLog.check.lua"

-- With the vendored manifest no strategy lacks a script or an argument: what is prepared is the
-- strategy's own check script, under the SHA-1 of its text, with each argument at the place at which
-- the script reads it.
pub prepare_vendored :
    (files : Files) (s : Strategy) (now cost : ℤ)
    → (sc : Script) × (prepare files manifest_scripts s now cost ≡ ok (sc, lua_args s now cost))
      × (sc.source ≡ files.read_text (lua_file s))
      × (sc.sha1 ≡ files.sha1_hex sc.source)
unfolding prepare script manifest_scripts argv_of values_of item kind params lookup
prepare_vendored files (gcra a b c) now cost = (_, refl, refl, refl)
prepare_vendored files (token_bucket a b) now cost = (_, refl, refl, refl)
prepare_vendored files (fixed_window a b) now cost = (_, refl, refl, refl)
prepare_vendored files (sliding_window a b c) now cost = (_, refl, refl, refl)
prepare_vendored files (sliding_window_log a b) now cost = (_, refl, refl, refl)
