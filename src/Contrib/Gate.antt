-- ===== src/Contrib/Gate.antt =====
-- When the adapters of src/throttlekit/contrib let the application run.
pub mod Starlette
pub mod Fastapi
pub mod Django
pub mod Flask
pub mod Services
mod Tests
use throttlekit_py.Base.{
  String, ℤ, same_text, Bool, true, false, not, ◌&&◌, ◌||◌, Bool-cases, Option, none, some, List,
  [], ◌∷◌, ◌++◌, map, ◌≡◌, ◌≢◌, refl, ap, ◌∙◌, arith, inl, inr, if◌then◌else◌,
}
use throttlekit_py.Decision.{Decision}
use throttlekit_py.Errors.{Exn, Result, ok, err, service_unavailable}
use throttlekit_py.Headers.{decision_headers, known_style}
use throttlekit_py.Ratelimit.{◌▸◌, Checker, resolve_async, resolve_sync}
use throttlekit_py.Contrib.{Asked, answered, unavailable, raised, asked, fails_closed}

-- A request is let through by an allow, and by an outage of the limiter where it fails open.
abbrev pub lets_through : Bool → Result Decision → Bool
lets_through closed (ok d) = d.allowed
lets_through closed (err (service_unavailable text)) = not closed
lets_through closed (err e) = false

abbrev pub asked_through : Bool → Asked → Bool
asked_through closed (answered d) = d.allowed
asked_through closed unavailable = not closed
asked_through closed (raised e) = false

pub through_asked :
    (closed : Bool) (r : Result Decision) → lets_through closed r ≡ asked_through closed (asked r)
unfolding asked
through_asked closed r = ground arith

-- What holds of a request that is let through, and of one that is not.
abbrev pub Gate : Bool → Type 0 → Type 0 → Type 0
Gate true passed refused = passed
Gate false passed refused = refused

-- `request.throttlekit_decision` of a Django view that runs, or the decision of an
-- answer.
abbrev pub shown_decision : Result Decision → Option Decision
shown_decision (ok d) = some d
shown_decision (err e) = none

abbrev pub asked_decision : Asked → Option Decision
asked_decision (answered d) = some d
asked_decision unavailable = none
asked_decision (raised e) = none

pub shown_asked : (r : Result Decision) → shown_decision r ≡ asked_decision (asked r)
unfolding asked
shown_asked r = ground arith
