-- ===== src/RedisAsync/Tests.antt =====
-- `AsyncRedisBackend` against a server that keeps a count of its runs, and loses its scripts.
use throttlekit_py.Base.{
  ℕ, suc, ℤ, pos, Bool, true, false, none, List, [], ◌∷◌, ◌≡◌, refl, if◌then◌else◌,
}
use throttlekit_py.Errors.{Exn, foreign, ok, err}
use throttlekit_py.Strategies.{Strategy, gcra}
use throttlekit_py.Contract.{Files, manifest_scripts}
use throttlekit_py.Redis.{is_noscript}
use throttlekit_py.Redis.Scripts.{ServesScripts}
use throttlekit_py.RedisAsync.{AsyncRedisClient, decode_reply, check}
use throttlekit_py.RedisAsync.Scripts.{awaited, async_check_runs_once}

abbrev files : Files
files = record { read_text = λ file. file; sha1_hex = λ text. text }

-- Whether the scripts are cached, and the runs.
record World : Type 0 where
  cached : Bool
  runs : ℕ

abbrev ran : World → World
ran w = record { cached = true; runs = suc w.runs }

abbrev no_script : Exn
no_script = foreign "NoScriptError" "No matching script. Please use EVAL."

abbrev client : AsyncRedisClient World
client = record {
  evalsha = λ sha1 keys argv w. if w.cached then (ok argv, ran w) else (err no_script, w);
  eval = λ source keys argv w. (ok argv, ran w);
}

hit_lem :
    (argv : List ℤ) (w : World) → w.cached ≡ true → client.evalsha "" [] argv w ≡ (ok argv, ran w)
hit_lem argv w h = rw h refl

miss_lem :
    (argv : List ℤ) (w : World)
    → w.cached ≡ false
    → client.evalsha "" [] argv w ≡ (err no_script, w)
miss_lem argv w h = simp h

known_lem : (argv : List ℤ) (e : Exn) → ok argv ≡ err e → is_noscript e ≡ false
known_lem argv e h = cc

abbrev server : ServesScripts (awaited client) (λ text. text)
server = record {
  run = λ source keys argv w. (ok argv, ran w);
  cached = λ sha1 w. w.cached;
  eval_runs = λ source keys argv w. refl;
  evalsha_hit = λ source keys argv w h. hit_lem argv w h;
  evalsha_miss = λ sha1 keys argv w h. miss_lem argv w h;
  runs_known = λ source keys argv w e h. known_lem argv e h;
}

-- Another client's script runs before the EVAL.
abbrev others : World → World
others w = record w { runs = suc w.runs }

abbrev strategy : Strategy
strategy = gcra (pos 100) (pos 60000) (pos 20)

async_check_runs_once_example :
    check others files manifest_scripts
      (record { client = client; strategy = strategy; prefix = "" })
      "user"
      (pos 2)
      none
      (record { cached = false; runs = 0 })
    ≡ decode_reply others
        (ok (pos 0 ∷ pos 60000 ∷ pos 100 ∷ pos 20 ∷ pos 2 ∷ []), record { cached = true; runs = 2 })
async_check_runs_once_example =
    async_check_runs_once others client files server strategy "" "user" (pos 2) none
      (record { cached = false; runs = 0 })
