-- ===== src/Contrib/Gate/Tests.antt =====
-- The adapters in front of a service that is out of reach, or denies.
use throttlekit_py.Base.{
  ℕ, suc, String, pos, true, false, none, some, [], refl, inr, same_text, if◌then◌else◌,
}
use throttlekit_py.Errors.{ok}
use throttlekit_py.Grpc.{StatusCode, RpcError, reply, failed}
use throttlekit_py.Service.{RateLimiterStub, DecisionMessage}
use throttlekit_py.Ratelimit.{PolicyBackend, bind_policy}
use throttlekit_py.Ratelimit.Services.{service_policy, async_service_policy}
use throttlekit_py.Contrib.Starlette as Asgi
use throttlekit_py.Contrib.Django as Dj
use throttlekit_py.Contrib.Gate.Starlette.{RunsApp}
use throttlekit_py.Contrib.Gate.Services.{starlette_service_gate}

abbrev denial : DecisionMessage
denial = record {
  allowed = false;
  limit = pos 10;
  remaining = pos 0;
  reset_at = pos 5000;
  retry_after_ms = pos 5000;
}

abbrev lost : RpcError
lost = record { code = StatusCode.unavailable; details = some "down" }

-- `Check` denies the key "busy" and is out of reach for any other; its calls are counted.
abbrev server : RateLimiterStub ℕ
server = record {
  check = λ r n. ((if same_text r.key "busy" then reply denial else failed lost), suc n);
  check_many = λ r n. (failed lost, n);
  peek = λ r n. (failed lost, n);
  forecast = λ r n. (failed lost, n);
  debit = λ r n. (failed lost, n);
  admit = λ r n. (failed lost, n);
  release = λ r n. (failed lost, n);
  heartbeat = λ ids n. (failed lost, n);
}

abbrev page : Asgi.App String ℕ
page send w = send (record { type = "http.response.start"; headers = []; payload = "200" }) w

abbrev guarded : PolicyBackend ℕ → Asgi.Middleware String ℕ
guarded backend = record {
  app = page;
  checker = bind_policy backend "api";
  key = λ scope w. (ok (Asgi.key_scope_peer scope), w);
  cost = pos 1;
  style = "ietf";
  on_unavailable = "allow";
  clock = λ w. pos 0;
  json_response = λ detail status headers send.
      send (record { type = "http.response.start"; headers = headers; payload = detail });
}

abbrev peer : Asgi.Scope
peer = record { type = "http"; client = some "10.0.0.1" }

abbrev sink : Asgi.Send String ℕ
sink message w = (ok tt, w)

-- The server is out of reach, and the middleware fails open.
starlette_service_gate_example :
    RunsApp
      (guarded (async_service_policy server))
      1
      (Asgi.middleware (guarded (async_service_policy server)) peer sink 0)
unfolding Asgi.key_scope_peer
starlette_service_gate_example =
    starlette_service_gate server (guarded (async_service_policy server))
      (async_service_policy server) "api" "10.0.0.1" peer sink page 0 0 (inr refl) refl refl refl
      refl

abbrev dj : Dj.RateLimit String String ℕ
dj = record {
  checker = bind_policy (service_policy server) "api";
  key = λ request w. (ok request, w);
  cost = pos 1;
  block = true;
  style = "ietf";
  on_unavailable = "allow";
  stamp_headers = true;
  clock = λ w. pos 0;
  http_response = λ text status headers. text;
  set_header = λ header value resp. resp;
}

abbrev hello : Dj.View String String ℕ
hello req w = (Dj.responds "hello", suc w)

abbrev silent : Dj.View String String ℕ
silent req w = (Dj.responds "", w)

abbrev busy : Dj.Request String
busy = record { request = "busy"; throttlekit_decision = none }
