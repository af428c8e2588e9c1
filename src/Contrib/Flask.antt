-- ===== src/Contrib/Flask.antt =====
-- src/throttlekit/contrib/flask.py: the extension `ThrottleKit`. Flask's `make_response`, `abort` and
-- the headers of a response are parameters.
use throttlekit_py.Base.{
  ℕ, String, ℤ, same_text, Dict, insert, [], Bool, not, Option, none, some, if◌then◌else◌,
}
use throttlekit_py.Decision.{Decision}
use throttlekit_py.Errors.{Exn, Result, ok, err, runtime_error}
use throttlekit_py.Headers.{decision_headers}
use throttlekit_py.Ratelimit.{◌▸◌, Checker, resolve_sync}
use throttlekit_py.Contrib.{Asked, answered, unavailable, raised, asked, fails_closed}

-- What `ThrottleKit` is given, with the clock that `decision_headers` reads and Flask's
-- `make_response` of what a view returned, `make_response((text, status))`, `headers.update`, and the
-- exception of `abort`.
pub record ThrottleKit (V Resp W : Type 0) : Type 0 where
  pub checker : Option (Checker W)
  pub key : W → Result String × W
  pub default_cost : ℤ
  pub style : String
  pub headers_enabled : Bool
  pub on_unavailable : String
  pub clock : W → ℤ
  pub make_response : V → Result Resp
  pub text_response : String → ℕ → Resp
  pub update_headers : Dict String → Resp → Resp
  pub abort : ℕ → Exn

-- `_key_remote_addr`, of `request.remote_addr`.
unfoldable pub key_remote_addr : Option String → String
key_remote_addr none = "anonymous"
key_remote_addr (some addr) = if same_text addr "" then "anonymous" else addr

-- A Flask application, by its attribute `extensions`, if it has one.
pub record Application (Ext : Type 0) : Type 0 where
  pub extensions : Option (Dict Ext)

abbrev extensions_of : {Ext : Type 0} → Option (Dict Ext) → Dict Ext
extensions_of none = []
extensions_of (some extensions) = extensions

-- `init_app`
unfoldable pub init_app : {Ext : Type 0} → Ext → Application Ext → Application Ext
init_app extension app = record app {
  extensions = some (insert "throttlekit" extension (extensions_of app.extensions));
}

-- What `limit` is given for one route.
pub record Limit (W : Type 0) : Type 0 where
  pub checker : Option (Checker W)
  pub key : Option (W → Result String × W)
  pub cost : Option ℤ

-- `a if a is not None else b`
abbrev pub given_or {ℓ} : {A : Type ℓ} → Option A → A → A
given_or none b = b
given_or (some a) b = a

-- The response of a call: a value of `make_response`, or what the wrapped view returned as it was.
pub data Returned (V Resp : Type 0) : Type 0 where
  response : Resp → Returned V Resp
  as_is : V → Returned V Resp

module _ {V Resp W : Type 0} (tk : ThrottleKit V Resp W) where
  -- The checker of the route, or else that of the extension.
  unfoldable pub resolved_checker : Limit W → Option (Checker W)
  resolved_checker route = elim route.checker [ none ↦ tk.checker | some checker ↦ some checker ]

  -- `if self.headers_enabled: response.headers.update(…)`
  unfoldable pub stamped : Decision → Resp → W → Result (Returned V Resp) × W
  stamped d resp w =
      if tk.headers_enabled
      then ((decision_headers d tk.style (tk.clock w), w)
          ▸ (λ headers w'. (ok (response (tk.update_headers headers resp)), w')))
      else (ok (response resp), w)

  unfoldable pub after_check : (W → Result V × W) → Asked × W → Result (Returned V Resp) × W
  unfolding stamped
  after_check view (answered d, w) =
      if not d.allowed
      then stamped d (tk.text_response "rate limit exceeded" 429) w
      else (view w ▸ (λ v w'. (tk.make_response v, w')) ▸ stamped d)
  after_check view (unavailable, w) =
      if fails_closed tk.on_unavailable
      then (err (tk.abort 503), w)
      else (view w ▸ (λ v w'. (ok (as_is v), w')))
  after_check view (raised e, w) = (err e, w)

  -- The wrapped view, once the checker is resolved.
  unfoldable pub limited_by :
      Option (Checker W) → Limit W → (W → Result V × W) → W → Result (Returned V Resp) × W
  unfolding after_check asked
  limited_by none route view w = (err runtime_error, w)
  limited_by (some checker) route view w =
      let (answer, w') =
        given_or route.key tk.key w
        ▸ (λ k. resolve_sync checker k (given_or route.cost tk.default_cost)) in
      after_check view (asked answer, w')

  -- The wrapped view, on the arguments of one request.
  unfoldable pub limited : Limit W → (W → Result V × W) → W → Result (Returned V Resp) × W
  unfolding limited_by
  limited route view w = limited_by (resolved_checker route) route view w
