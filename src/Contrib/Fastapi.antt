-- ===== src/Contrib/Fastapi.antt =====
-- src/throttlekit/contrib/fastapi.py: the dependency that `RateLimit` builds. The headers `H` of the
-- response are FastAPI's, and so is their `update`.
use throttlekit_py.Base.{ℕ, String, ℤ, Dict, Bool, not, Option, none, some, [], if◌then◌else◌}
use throttlekit_py.Errors.{Exn, Result, ok, err}
use throttlekit_py.Headers.{decision_headers}
use throttlekit_py.Ratelimit.{◌▸◌, Checker, resolve_async}
use throttlekit_py.Contrib.{Asked, answered, unavailable, raised, asked, fails_closed}

-- How a dependency ends: it returns, with the headers of the response after it, or it raises an
-- `HTTPException` of a status, a detail and headers, or another exception.
pub data DependencyEnd (H : Type 0) : Type 0 where
  returns : H → DependencyEnd H
  http_exception : ℕ → String → Dict String → DependencyEnd H
  raises : Exn → DependencyEnd H

-- What `RateLimit` is given, for requests of type `R`, with the clock that `decision_headers` reads.
pub record RateLimit (R H W : Type 0) : Type 0 where
  pub checker : Checker W
  pub key : R → W → Result String × W
  pub cost : ℤ
  pub style : String
  pub on_unavailable : String
  pub stamp_headers : Bool
  pub clock : W → ℤ
  pub update : Dict String → H → H

-- `_key_request_peer`, of `request.client` by its host.
unfoldable pub key_request_peer : Option String → String
key_request_peer none = "anonymous"
key_request_peer (some host) = host

module _ {R H W : Type 0} (b : RateLimit R H W) where
  abbrev refuse_with : Result (Dict String) → DependencyEnd H
  refuse_with (ok headers) = http_exception 429 "rate limit exceeded" headers
  refuse_with (err e) = raises e

  abbrev stamp_with : H → Result (Dict String) → DependencyEnd H
  stamp_with h (ok headers) = returns (b.update headers h)
  stamp_with h (err e) = raises e

  unfoldable pub answer_of : H → Asked → W → DependencyEnd H
  answer_of h (answered d) w =
      if not d.allowed
      then refuse_with (decision_headers d b.style (b.clock w))
      else if b.stamp_headers
      then stamp_with h (decision_headers d b.style (b.clock w))
      else returns h
  answer_of h unavailable w =
      if fails_closed b.on_unavailable
      then http_exception 503 "rate limiter unavailable" []
      else returns h
  answer_of h (raised e) w = raises e

  unfoldable pub dependency : R → H → W → DependencyEnd H × W
  unfolding answer_of asked
  dependency request h w =
      let (answer, w') = b.key request w ▸ (λ k. resolve_async b.checker k b.cost) in
      (answer_of h (asked answer) w', w')
