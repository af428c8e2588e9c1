-- ===== src/Contrib/Tests.antt =====
-- The adapters of src/throttlekit/contrib on concrete requests, and each theorem about them at an
-- input.
use throttlekit_py.Base.{
  ℕ, String, pos, ◌+◌, Dict, Bool, true, false, none, some, List, [], ◌∷◌, ◌++◌, insert, lookup,
  ◌≡◌, refl,
}
use throttlekit_py.Decision.{Decision}
use throttlekit_py.Errors.{Result, ok, err, service_unavailable, foreign}
use throttlekit_py.Ratelimit.{Checker, decided, resolve_async, resolve_sync, take_outcome}
use throttlekit_py.Contrib.Starlette as Asgi
use throttlekit_py.Contrib.Fastapi as Fast
use throttlekit_py.Contrib.Django as Dj
use throttlekit_py.Contrib.Flask as Fl
use throttlekit_py.Contrib.Gate.Starlette.{sends_all}
use throttlekit_py.Contrib.Gate.Fastapi.{fastapi_gate, Returns}
use throttlekit_py.Contrib.Gate.Django.{django_gate}
use throttlekit_py.Contrib.Gate.Flask.{flask_gate}

abbrev answer : Bool → Decision
answer allowed = record {
  allowed = allowed;
  limit = pos 10;
  remaining = pos 3;
  reset_at = pos 5000;
  retry_after_ms = pos 0;
}

abbrev says : {W : Type 0} → Result Decision → Checker W
says (ok d) = record { is_async = false; call = λ key cost w. (ok (decided d), w) }
says (err e) = record { is_async = false; call = λ key cost w. (err e, w) }

abbrev Log : Type 0
Log = List (Asgi.Message String)

abbrev page : Log
page =
    record { type = "http.response.start"; headers = []; payload = "200" }
    ∷ record { type = "http.response.body"; headers = []; payload = "hello" }
    ∷ []

abbrev asgi : Result Decision → Asgi.Middleware String Log
asgi r = record {
  app = sends_all page;
  checker = says r;
  key = λ scope w. (ok "peer", w);
  cost = pos 1;
  style = "ietf";
  on_unavailable = "allow";
  clock = λ w. pos 0;
  json_response = λ detail status headers send.
      send (record { type = "http.response.start"; headers = headers; payload = detail });
}

abbrev browser : Asgi.Scope
browser = record { type = "http"; client = some "10.0.0.1" }

-- A limiter that is out of reach.
abbrev outage : Result Decision
outage = err (service_unavailable "down")

abbrev fast : Fast.RateLimit String (Dict String) ℕ
fast = record {
  checker = says outage;
  key = λ request w. (ok request, w);
  cost = pos 1;
  style = "both";
  on_unavailable = "deny";
  stamp_headers = true;
  clock = λ w. pos 0;
  update = λ headers h. h ++ headers;
}

fastapi_gate_example : ¬ Returns fast (Fast.dependency fast "peer" [] 0).0
unfolding resolve_async resolve_sync take_outcome
fastapi_gate_example = fastapi_gate fast "peer" [] 0 refl

abbrev dj : Result Decision → Dj.RateLimit String String ℕ
dj r = record {
  checker = says r;
  key = λ request w. (ok request, w);
  cost = pos 1;
  block = true;
  style = "ietf";
  on_unavailable = "allow";
  stamp_headers = true;
  clock = λ w. pos 0;
  http_response = λ text status headers. text;
  set_header = λ header value resp. resp;
}

abbrev hello : Dj.View String String ℕ
hello req w = (Dj.responds "hello", w + 1)

abbrev crash : Dj.View String String ℕ
crash req w = (Dj.raises (foreign "Crash" ""), w)

abbrev request : Dj.Request String
request = record { request = "peer"; throttlekit_decision = none }

django_gate_example :
    Dj.limited (dj (ok (answer false))) hello request 0
    ≡ Dj.limited (dj (ok (answer false))) crash request 0
unfolding resolve_sync take_outcome
django_gate_example = django_gate (dj (ok (answer false))) hello crash request 0

abbrev fl : Fl.ThrottleKit String String ℕ
fl = record {
  checker = some (says outage);
  key = λ w. (ok "peer", w);
  default_cost = pos 1;
  style = "ietf";
  headers_enabled = true;
  on_unavailable = "deny";
  clock = λ w. pos 0;
  make_response = λ v. ok v;
  text_response = λ text status. text;
  update_headers = λ headers resp. resp;
  abort = λ status. foreign "HTTPException" "503";
}

abbrev route : Fl.Limit ℕ
route = record { checker = none; key = none; cost = some (pos 2) }

flask_gate_example :
    Fl.limited fl route (λ w. (ok "hello", w + 1)) 0 ≡ Fl.limited fl route (λ w. (ok "bye", w)) 0
unfolding resolve_sync take_outcome Fl.resolved_checker
flask_gate_example =
    flask_gate fl route (says outage) (λ w. (ok "hello", w + 1)) (λ w. (ok "bye", w)) 0 refl

-- The keys where the peer is not known, and where it is.
default_keys :
    (Fl.key_remote_addr (some "") ≡ "anonymous")
    × (Fl.key_remote_addr (some "10.0.0.1") ≡ "10.0.0.1")
    × (Dj.meta_remote_addr [] ≡ "anonymous")
    × (Dj.meta_remote_addr (("REMOTE_ADDR", "10.0.0.1") ∷ []) ≡ "10.0.0.1")
unfolding Fl.key_remote_addr Dj.meta_remote_addr lookup
default_keys = (refl, refl, refl, refl)

-- The extension takes the place of an older one, and the others stay.
bound_app :
    Fl.init_app {Ext = String} "new"
      (record { extensions = some (("db", "db") ∷ ("throttlekit", "old") ∷ []) })
    ≡ record { extensions = some (("db", "db") ∷ ("throttlekit", "new") ∷ []) }
unfolding Fl.init_app insert
bound_app = refl
