-- ===== src/Redis/Tests.antt =====
-- `RedisBackend` against a concrete server, and each theorem about it at an input.
use throttlekit_py.Base.{
  ℤ, pos, Dict, lookup, Bool, true, false, none, some, List, [], ◌∷◌, ◌≡◌, refl, if◌then◌else◌,
}
use throttlekit_py.Errors.{Exn, foreign, ok, err}
use throttlekit_py.Strategies.{Strategy, gcra, sliding_window, kind, params, item, from_spec}
use throttlekit_py.Strategies.Specs.{Holds, from_spec-params}
use throttlekit_py.Contract.{Files, Script, script, manifest_scripts}
use throttlekit_py.Redis.{
  RedisClient, RedisBackend, is_noscript, decode, argv_of, values_of, full_key, after_evalsha,
  eval_script, decode_reply, prepare, check,
}
use throttlekit_py.Redis.Scripts.{ServesScripts, check_runs_script}

-- The text of a file is its name, and the SHA-1 of a text the text.
abbrev files : Files
files = record { read_text = λ file. file; sha1_hex = λ text. text }

abbrev no_script : Exn
no_script = foreign "NoScriptError" "No matching script. Please use EVAL."

-- A server whose scripts answer with their arguments; its state says whether they are cached.
abbrev echo : RedisClient Bool
echo = record {
  evalsha = λ sha1 keys argv w. if w then (ok argv, true) else (err no_script, w);
  eval = λ source keys argv w. (ok argv, true);
}

echo_known : (argv : List ℤ) (e : Exn) → ok argv ≡ err e → is_noscript e ≡ false
echo_known argv e h = cc

echo_hit : (argv : List ℤ) (w : Bool) → w ≡ true → echo.evalsha "" [] argv w ≡ (ok argv, true)
echo_hit argv w h = rw h

echo_miss : (argv : List ℤ) (w : Bool) → w ≡ false → echo.evalsha "" [] argv w ≡ (err no_script, w)
echo_miss argv w h = rw h

abbrev echo_server : ServesScripts echo (λ text. text)
echo_server = record {
  run = λ source keys argv w. (ok argv, true);
  cached = λ sha1 w. w;
  eval_runs = λ source keys argv w. refl;
  evalsha_hit = λ source keys argv w h. echo_hit argv w h;
  evalsha_miss = λ sha1 keys argv w h. echo_miss argv w h;
  runs_known = λ source keys argv w e h. echo_known argv e h;
}

abbrev strategy : Strategy
strategy = gcra (pos 100) (pos 60000) (pos 20)

abbrev backend : RedisBackend Bool
backend = record { client = echo; strategy = strategy; prefix = "prod" }

-- A cold cache: the reply comes from `eval`.
check_cold : check files manifest_scripts backend "user" (pos 2) (some (pos 1)) false ≡ (
  ok (record {
    allowed = true;
    limit = pos 60000;
    remaining = pos 100;
    reset_at = pos 20;
    retry_after_ms = pos 2;
  }),
  true,
)
unfolding check prepare script manifest_scripts argv_of values_of item kind params lookup
    eval_script after_evalsha is_noscript decode full_key
check_cold = refl

abbrev echo_script : Script
echo_script = record {
  name = "gcra.check";
  strategy = "gcra";
  role = "check";
  argv = [];
  source = "gcra.check.lua";
  sha1 = "gcra.check.lua";
}

check_runs_script_example :
    check files manifest_scripts backend "user" (pos 2) none false
    ≡ decode_reply (ok (pos 0 ∷ pos 60000 ∷ pos 100 ∷ pos 20 ∷ pos 2 ∷ []), true)
check_runs_script_example =
    check_runs_script echo files echo_server strategy "prod" "user" (pos 2) none false

abbrev options : Dict ℤ
options = ("buckets", pos 10) ∷ ("limit", pos 5) ∷ ("windowMs", pos 1000) ∷ []

options_hold : Holds options (params (sliding_window (pos 5) (pos 1000) (pos 10)))
unfolding params lookup
options_hold = (refl, (refl, (refl, tt)))

from_spec-params_example :
    from_spec (kind (sliding_window (pos 5) (pos 1000) (pos 10))) options
    ≡ ok (sliding_window (pos 5) (pos 1000) (pos 10))
from_spec-params_example =
    from_spec-params (sliding_window (pos 5) (pos 1000) (pos 10)) options options_hold
