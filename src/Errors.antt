-- ===== src/Errors.antt =====
-- src/throttlekit/errors.py, the exceptions of Python that the package raises, and a call that
-- may raise: a value or an exception, with the state of the outside world after it.
use throttlekit_py.Base.{String}
use throttlekit_py.Decision.{Decision}

pub data Exn : Type 0 where
  -- The package's own: an operational fault, with the text that it carries.
  throttle_kit_error policy_not_found operation_not_supported service_unavailable : String → Exn
  -- `RateLimited` of ratelimit.py, which is no `ThrottleKitError`.
  rate_limited : Decision → Exn
  -- Python's, raised by the package.
  value_error type_error key_error index_error runtime_error : Exn
  -- Any other exception, as its type's name and its text.
  foreign : String → String → Exn

pub data Result {ℓ} (A : Type ℓ) : Type ℓ where
  ok : A → Result A
  err : Exn → Result A

-- The exception of the first call passes over the rest.
infixl 5 ◌>>=◌
abbrev pub ◌>>=◌ {ℓ κ} :
    {Value : Type ℓ} {Next : Type κ} → Result Value → (Value → Result Next) → Result Next
err raised >>= rest = err raised
ok value >>= rest = rest value

-- What a call makes of the value that another one returned.
abbrev pub map_result {ℓ κ} :
    {Value : Type ℓ} {Out : Type κ} → (Value → Out) → Result Value → Result Out
map_result make (err raised) = err raised
map_result make (ok value) = ok (make value)
