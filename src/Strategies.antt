-- ===== src/Strategies.antt =====
-- src/throttlekit/strategies.py: the strategies of the direct Redis door. A `Strategy` is a class
-- with its fields in the order of the source.
pub mod Specs
use throttlekit_py.Base.{
  String, ℤ, same_text, Dict, lookup, Option, none, some, [], ◌∷◌, if◌then◌else◌,
}
use throttlekit_py.Errors.{Result, ok, err, key_error, value_error, ◌>>=◌}

pub data Strategy : Type 0 where
  -- `limit`, `period_ms`, `burst`
  gcra : ℤ → ℤ → ℤ → Strategy
  -- `capacity`, `refill_per_sec`
  token_bucket : ℤ → ℤ → Strategy
  -- `limit`, `window_ms`
  fixed_window : ℤ → ℤ → Strategy
  -- `limit`, `window_ms`, `buckets`
  sliding_window : ℤ → ℤ → ℤ → Strategy
  -- `limit`, `window_ms`
  sliding_window_log : ℤ → ℤ → Strategy

unfoldable pub kind : Strategy → String
kind (gcra limit period_ms burst) = "gcra"
kind (token_bucket capacity refill_per_sec) = "tokenBucket"
kind (fixed_window limit window_ms) = "fixedWindow"
kind (sliding_window limit window_ms buckets) = "slidingWindow"
kind (sliding_window_log limit window_ms) = "slidingWindowLog"

unfoldable pub params : Strategy → Dict ℤ
params (gcra limit period_ms burst) =
    ("limit", limit) ∷ ("periodMs", period_ms) ∷ ("burst", burst) ∷ []
params (token_bucket capacity refill_per_sec) =
    ("capacity", capacity) ∷ ("refillPerSec", refill_per_sec) ∷ []
params (fixed_window limit window_ms) = ("limit", limit) ∷ ("windowMs", window_ms) ∷ []
params (sliding_window limit window_ms buckets) =
    ("limit", limit) ∷ ("windowMs", window_ms) ∷ ("buckets", buckets) ∷ []
params (sliding_window_log limit window_ms) = ("limit", limit) ∷ ("windowMs", window_ms) ∷ []

-- `d[name]`
abbrev pub found {ℓ} : {V : Type ℓ} → Option V → Result V
found none = err key_error
found (some v) = ok v

unfoldable pub item {ℓ} : {V : Type ℓ} → Dict V → String → Result V
item d name = found (lookup name d)

gcra_of : Dict ℤ → Result Strategy
gcra_of options = do
  limit ← item options "limit"
  period_ms ← item options "periodMs"
  burst ← item options "burst"
  ok (gcra limit period_ms burst)

token_bucket_of : Dict ℤ → Result Strategy
token_bucket_of options = do
  capacity ← item options "capacity"
  refill_per_sec ← item options "refillPerSec"
  ok (token_bucket capacity refill_per_sec)

fixed_window_of : Dict ℤ → Result Strategy
fixed_window_of options = do
  limit ← item options "limit"
  window_ms ← item options "windowMs"
  ok (fixed_window limit window_ms)

sliding_window_of : Dict ℤ → Result Strategy
sliding_window_of options = do
  limit ← item options "limit"
  window_ms ← item options "windowMs"
  buckets ← item options "buckets"
  ok (sliding_window limit window_ms buckets)

sliding_window_log_of : Dict ℤ → Result Strategy
sliding_window_log_of options = do
  limit ← item options "limit"
  window_ms ← item options "windowMs"
  ok (sliding_window_log limit window_ms)

unfoldable pub from_spec : String → Dict ℤ → Result Strategy
unfolding gcra_of token_bucket_of fixed_window_of sliding_window_of sliding_window_log_of
from_spec kind options =
    if same_text kind "gcra"
    then gcra_of options
    else if same_text kind "tokenBucket"
    then token_bucket_of options
    else if same_text kind "fixedWindow"
    then fixed_window_of options
    else if same_text kind "slidingWindow"
    then sliding_window_of options
    else if same_text kind "slidingWindowLog"
    then sliding_window_log_of options
    else err value_error
