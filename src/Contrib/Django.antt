-- ===== src/Contrib/Django.antt =====
-- src/throttlekit/contrib/django.py: the decorator `rate_limit` and `ThrottleKitMiddleware`. Django's
-- responses are of a type `Resp`, and how they are made and given a header is a parameter.
use throttlekit_py.Base.{
  ℕ, String, ℤ, Dict, lookup, Bool, not, ◌&&◌, Option, none, some, [], ◌∷◌, if◌then◌else◌,
}
use throttlekit_py.Decision.{Decision}
use throttlekit_py.Errors.{Exn, Result, ok, err}
use throttlekit_py.Headers.{decision_headers}
use throttlekit_py.Ratelimit.{◌▸◌, Checker, resolve_sync}
use throttlekit_py.Contrib.{Asked, answered, unavailable, raised, asked, fails_closed}

-- A request, and its attribute `throttlekit_decision`: not set, or None, or a decision.
pub record Request (R : Type 0) : Type 0 where
  pub request : R
  pub throttlekit_decision : Option (Option Decision)

-- `_key_remote_addr`, of `request.META`.
unfoldable pub meta_remote_addr : Dict String → String
meta_remote_addr meta = elim (lookup "REMOTE_ADDR" meta) [ none ↦ "anonymous" | some addr ↦ addr ]

-- How a view ends: with a response, with a `Ratelimited`, or with another exception.
pub data ViewEnd (Resp : Type 0) : Type 0 where
  responds : Resp → ViewEnd Resp
  ratelimited : Decision → ViewEnd Resp
  raises : Exn → ViewEnd Resp

abbrev pub View : Type 0 → Type 0 → Type 0 → Type 0
View R Resp W = Request R → W → ViewEnd Resp × W

-- What `rate_limit` is given, with the clock that `decision_headers` reads, and Django's
-- `HttpResponse(text, status, headers)` and `response.headers[header] = value`.
pub record RateLimit (R Resp W : Type 0) : Type 0 where
  pub checker : Checker W
  pub key : R → W → Result String × W
  pub cost : ℤ
  pub block : Bool
  pub style : String
  pub on_unavailable : String
  pub stamp_headers : Bool
  pub clock : W → ℤ
  pub http_response : String → ℕ → Dict String → Resp
  pub set_header : String → String → Resp → Resp

module _ {R Resp W : Type 0} (b : RateLimit R Resp W) where
  -- `for header, value in ….items(): response.headers[header] = value`
  unfoldable pub set_headers : Dict String → Resp → Resp
  set_headers [] resp = resp
  set_headers ((header, value) ∷ rest) resp = set_headers rest (b.set_header header value resp)

  unfoldable pub stamp_with : Resp → Result (Dict String) → ViewEnd Resp
  unfolding set_headers
  stamp_with resp (ok headers) = responds (set_headers headers resp)
  stamp_with resp (err e) = raises e

  -- What follows the view.
  unfoldable pub after_view : Decision → ViewEnd Resp × W → ViewEnd Resp × W
  unfolding stamp_with
  after_view d (responds resp, w) =
      if b.stamp_headers
      then (stamp_with resp (decision_headers d b.style (b.clock w)), w)
      else (responds resp, w)
  after_view d (ratelimited other, w) = (ratelimited other, w)
  after_view d (raises e, w) = (raises e, w)

  unfoldable pub after_check : View R Resp W → Request R → Asked × W → ViewEnd Resp × W
  unfolding after_view
  after_check view req (answered d, w) =
      if not d.allowed && b.block
      then (ratelimited d, w)
      else after_view d (view (record req { throttlekit_decision = some (some d) }) w)
  after_check view req (unavailable, w) =
      if fails_closed b.on_unavailable
      then (responds (b.http_response "rate limiter unavailable" 503 []), w)
      else view (record req { throttlekit_decision = some none }) w
  after_check view req (raised e, w) = (raises e, w)

  -- The view that the decorator makes.
  unfoldable pub limited : View R Resp W → View R Resp W
  unfolding after_check asked
  limited view req w =
      let (answer, w') = b.key req.request w ▸ (λ k. resolve_sync b.checker k b.cost) in
      after_check view req (asked answer, w')

-- `getattr(settings, "THROTTLEKIT_HEADER_STYLE", "ietf")`
abbrev pub or_ietf : Option String → String
or_ietf none = "ietf"
or_ietf (some style) = style

abbrev pub respond_with :
    {Resp : Type 0}
    → (String → ℕ → Dict String → Resp)
    → Result (Dict String)
    → Result (Option Resp)
respond_with http_response (ok headers) =
    ok (some (http_response "rate limit exceeded" 429 headers))
respond_with http_response (err e) = err e

-- `process_exception`, with `settings.THROTTLEKIT_HEADER_STYLE`, the time and `HttpResponse`; `none`
-- where it returns None.
unfoldable pub process_exception :
    {Resp : Type 0}
    → (String → ℕ → Dict String → Resp)
    → Option String
    → ℤ
    → ViewEnd Resp
    → Result (Option Resp)
process_exception http_response style now (ratelimited d) =
    respond_with http_response (decision_headers d (or_ietf style) now)
process_exception http_response style now (responds resp) = ok none
process_exception http_response style now (raises e) = ok none
