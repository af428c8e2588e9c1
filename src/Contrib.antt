-- ===== src/Contrib.antt =====
-- src/throttlekit/contrib: what the adapters for the web frameworks share. A framework is outside: its
-- responses, and what it does with them, are parameters. Each adapter asks a checker, answers for the
-- application when the checker denies or is out of reach, and otherwise lets the application run.
pub mod Starlette
pub mod Fastapi
pub mod Django
pub mod Flask
pub mod Gate
mod Tests
use throttlekit_py.Base.{String, same_text, Bool, if◌then◌else◌}
use throttlekit_py.Decision.{Decision}
use throttlekit_py.Errors.{Exn, Result, ok, err, service_unavailable}

-- How the `try: decision = … / except ServiceUnavailableError: …` of an adapter ends.
pub data Asked : Type 0 where
  answered : Decision → Asked
  unavailable : Asked
  raised : Exn → Asked

unfoldable pub asked : Result Decision → Asked
asked (ok d) = answered d
asked (err (service_unavailable text)) = unavailable
asked (err e) = raised e

-- `on_unavailable == "deny"`
abbrev pub fails_closed : String → Bool
fails_closed on_unavailable = same_text on_unavailable "deny"
