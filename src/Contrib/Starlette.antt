-- ===== src/Contrib/Starlette.antt =====
-- src/throttlekit/contrib/starlette.py: `ThrottleKitMiddleware`. An application sends its messages by
-- the function it is given; `JSONResponse` of Starlette is a parameter.
use throttlekit_py.Base.{
  ℕ, String, ℤ, same_text, Dict, not, Option, none, some, List, [], ◌++◌, if◌then◌else◌,
}
use throttlekit_py.Decision.{Decision}
use throttlekit_py.Errors.{Result, err}
use throttlekit_py.Headers.{decision_headers}
use throttlekit_py.Ratelimit.{◌▸◌, Checker, resolve_async}
use throttlekit_py.Contrib.{Asked, answered, unavailable, raised, asked, fails_closed}

-- An ASGI message: its type, its raw headers, and what else it has.
pub record Message (P : Type 0) : Type 0 where
  pub type : String
  pub headers : List (String × String)
  pub payload : P

abbrev pub Send : Type 0 → Type 0 → Type 0
Send P W = Message P → W → Result (Unit {0}) × W

-- An ASGI application on one connection.
abbrev pub App : Type 0 → Type 0 → Type 0
App P W = Send P W → W → Result (Unit {0}) × W

-- `scope["type"]`, and `scope.get("client")` by the host of the peer.
pub record Scope : Type 0 where
  pub type : String
  pub client : Option String

-- `_key_scope_peer`
unfoldable pub key_scope_peer : Scope → String
key_scope_peer scope = elim scope.client [ none ↦ "anonymous" | some host ↦ host ]

-- `_with_headers`; a text stands for its Latin-1 bytes.
unfoldable pub with_headers : {P : Type 0} → Message P → Dict String → Message P
with_headers message extra = record message { headers = message.headers ++ extra }

-- What the constructor is given, with the clock that `decision_headers` reads and with
-- `JSONResponse({"detail": detail}, status_code, headers)`.
pub record Middleware (P W : Type 0) : Type 0 where
  pub app : App P W
  pub checker : Checker W
  pub key : Scope → W → Result String × W
  pub cost : ℤ
  pub style : String
  pub on_unavailable : String
  pub clock : W → ℤ
  pub json_response : String → ℕ → Dict String → App P W

module _ {P W : Type 0} (m : Middleware P W) where
  unfoldable pub send_wrapper : Dict String → Send P W → Send P W
  unfolding with_headers
  send_wrapper extra send message w =
      send
        (if same_text message.type "http.response.start"
          then with_headers message extra
          else message)
        w

  -- `decision_headers(decision, self.style)`
  abbrev pub headers_for : Decision → W → Result (Dict String) × W
  headers_for d w = (decision_headers d m.style (m.clock w), w)

  unfoldable pub after_check : Send P W → Asked × W → Result (Unit {0}) × W
  unfolding send_wrapper
  after_check send (answered d, w) =
      if not d.allowed
      then (headers_for d w ▸ (λ headers. m.json_response "rate limit exceeded" 429 headers send))
      else (headers_for d w ▸ (λ extra. m.app (send_wrapper extra send)))
  after_check send (unavailable, w) =
      if fails_closed m.on_unavailable
      then m.json_response "rate limiter unavailable" 503 [] send w
      else m.app send w
  after_check send (raised e, w) = (err e, w)

  -- `__call__`
  unfoldable pub middleware : Scope → Send P W → W → Result (Unit {0}) × W
  unfolding after_check asked
  middleware scope send w =
      if not (same_text scope.type "http")
      then m.app send w
      else (let (answer, w') = m.key scope w ▸ (λ k. resolve_async m.checker k m.cost) in
          after_check send (asked answer, w'))
