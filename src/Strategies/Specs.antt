-- ===== src/Strategies/Specs.antt =====
-- `from_spec` and `params` are inverse to one another (src/throttlekit/strategies.py).
use throttlekit_py.Base.{
  String, ℤ, same_text, Dict, lookup, some, [], ◌∷◌, ◌≡◌, arith, eq_iff, Bool, true, false, ◌||◌,
}
use mathlib.Core.Path.{subst}
use throttlekit_py.Errors.{Exn, Result, ok, err, key_error, value_error}
use throttlekit_py.Strategies.{
  Strategy, gcra, token_bucket, fixed_window, sliding_window, sliding_window_log, kind, params,
  item, gcra_of, token_bucket_of, fixed_window_of, sliding_window_of, sliding_window_log_of,
  from_spec,
}

-- The options hold each of the entries.
abbrev pub Holds : Dict ℤ → Dict ℤ → Type 0
Holds options [] = Unit
Holds options ((name, v) ∷ entries) = (lookup name options ≡ some v) × Holds options entries

-- Options that hold the parameters of a strategy under its kind give that strategy back, whatever
-- else they hold and in whatever order.
pub from_spec-params :
    (s : Strategy) (options : Dict ℤ) → Holds options (params s) → from_spec (kind s) options ≡ ok s
unfolding from_spec kind params item
from_spec-params (gcra a b c) options (h, (i, (j, u))) = rw (h, i, j)
from_spec-params (token_bucket a b) options (h, (i, u)) = rw (h, i)
from_spec-params (fixed_window a b) options (h, (i, u)) = rw (h, i)
from_spec-params (sliding_window a b c) options (h, (i, (j, u))) = rw (h, i, j)
from_spec-params (sliding_window_log a b) options (h, (i, u)) = rw (h, i)

-- The strategy is of the kind, with parameters that the options hold.
abbrev Fits : String → Dict ℤ → Result Strategy → Type 0
Fits k options (ok s) = (kind s ≡ k) × Holds options (params s)
Fits k options (err e) = Unit

gcra_of-Fits : (options : Dict ℤ) → Fits "gcra" options (gcra_of options)
unfolding gcra_of item kind params
gcra_of-Fits options = ground arith

token_bucket_of-Fits : (options : Dict ℤ) → Fits "tokenBucket" options (token_bucket_of options)
unfolding token_bucket_of item kind params
token_bucket_of-Fits options = ground arith

fixed_window_of-Fits : (options : Dict ℤ) → Fits "fixedWindow" options (fixed_window_of options)
unfolding fixed_window_of item kind params
fixed_window_of-Fits options = ground arith

sliding_window_of-Fits :
    (options : Dict ℤ) → Fits "slidingWindow" options (sliding_window_of options)
unfolding sliding_window_of item kind params
sliding_window_of-Fits options = ground arith

sliding_window_log_of-Fits :
    (options : Dict ℤ) → Fits "slidingWindowLog" options (sliding_window_log_of options)
unfolding sliding_window_log_of item kind params
sliding_window_log_of-Fits options = ground arith

from_spec-Fits : (k : String) (options : Dict ℤ) → Fits k options (from_spec k options)
unfolding from_spec
from_spec-Fits k options = ground (
  arith,
  eq_iff k "gcra",
  eq_iff k "tokenBucket",
  eq_iff k "fixedWindow",
  eq_iff k "slidingWindow",
  eq_iff k "slidingWindowLog",
  gcra_of-Fits options,
  token_bucket_of-Fits options,
  fixed_window_of-Fits options,
  sliding_window_of-Fits options,
  sliding_window_log_of-Fits options,
)

-- A strategy that `from_spec` builds has the kind that was asked, and its parameters are the values
-- that the options hold.
from_spec_sound :
    (k : String) (options : Dict ℤ) (s : Strategy)
    → from_spec k options ≡ ok s
    → (kind s ≡ k) × Holds options (params s)
from_spec_sound k options s h = subst (Fits k options) h (from_spec-Fits k options)

abbrev pub known_kind : String → Bool
known_kind k =
    same_text k "gcra"
    || same_text k "tokenBucket"
    || same_text k "fixedWindow"
    || same_text k "slidingWindow"
    || same_text k "slidingWindowLog"

-- A kind other than the five raises `ValueError`; of the five, only a missing option raises, and then
-- `KeyError`.
from_spec_raises :
    (k : String) (options : Dict ℤ) (e : Exn)
    → (known_kind k ≡ false → from_spec k options ≡ err value_error)
      × (known_kind k ≡ true → from_spec k options ≡ err e → e ≡ key_error)
unfolding from_spec gcra_of token_bucket_of fixed_window_of sliding_window_of sliding_window_log_of
    item
from_spec_raises k options e = (λ unknown. ground arith, λ known h. ground arith)
