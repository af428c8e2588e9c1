-- ===== src/Examples/Tests.antt =====
-- Runs of the programs of examples/ against small services.
use throttlekit_py.Base.{
  has_text, Dict, String, ℕ, suc, ◌+◌, ◌≤◌, ◌<◌, ltb, ℤ, pos, negsuc, Bool, true, false, none, some,
  List, [], ◌∷◌, ◌⊎◌, ◌≡◌, refl, arith, if◌then◌else◌,
}
use throttlekit_py.Errors.{Result, ok, err}
use throttlekit_py.Grpc.{StatusCode, RpcError, reply, failed}
use throttlekit_py.Service.{
  DecisionMessage, AdmitResponse, RateLimiterStub, decision_of, decoded, mapped, by_status, check,
  debit,
}
use throttlekit_py.Service.Admission.{
  held, Admission, Client, new_admission, admitted, admit, admit_reply, start_release, swallow,
  release, exit,
}
use throttlekit_py.Service.Blocks.{
  exit_at, leave, entered, with_admit, stop_pump_of, close_backend, with_backend,
}
use throttlekit_py.Examples.Admissions.{
  slot_taken, hold_slots, release_at, release_slots, finally_release, press_cap, failing_work,
  admissions, admissions_main,
}
use throttlekit_py.Examples.Admissions.Slots.{ReleaseLog, press_cap_releases}
use throttlekit_py.Examples.Budgets.{
  fake_stream, metered, meter_stream, budget_block, token_budget_main, check_times, axes_block,
  service_main,
}
use throttlekit_py.Examples.Doors.{
  body, async_main, async_axes, after_checks, hold_once, user_keys, get_items, limit_api, items,
}
use throttlekit_py.ServiceAsync as Async
use throttlekit_py.ServiceAsync.Calls as AsyncCalls
use throttlekit_py.ServiceAsync.Admission as AsyncAdmission
use throttlekit_py.Ratelimit.{◌▸◌, bind_policy, resolve_sync, resolve_async, take_outcome}
use throttlekit_py.Ratelimit.Services.{service_policy}
use throttlekit_py.Contrib.{asked}
use throttlekit_py.Contrib.Fastapi.{answer_of, dependency, key_request_peer}
use throttlekit_py.Decision.{Decision}
use throttlekit_py.Examples.Budgets.Streams.{
  TokenBudget, tokens_admitted, stops_at_refusal, fake_stream-NoneOver, stream_within_budget,
}

abbrev verdict : Bool → DecisionMessage
verdict b = record {
  allowed = b;
  limit = pos 100000;
  remaining = pos 0;
  reset_at = pos 0;
  retry_after_ms = pos 0;
}

abbrev lost : RpcError
lost = record { code = StatusCode.unavailable; details = some "down" }

abbrev slot : AdmitResponse
slot = record {
  decision = verdict true;
  lease_id = "lease";
  lease_expires_at = pos 2000;
  binding_axis = "";
  policy_denied = false;
}

-- The tokens spent, the admissions, and what each `Release` said of dropping.
abbrev World : Type 0
World = ℕ × ℕ × List Bool

abbrev spends : ℤ → World → World
spends (pos n) w = (w.0 + n, w.1, w.2)
spends (negsuc n) w = w

-- A service with a token budget, which goes down at the third admission.
abbrev service : RateLimiterStub World
service = record {
  check = λ r w. (reply (verdict true), w);
  check_many = λ r w. (failed lost, w);
  peek = λ r w. (failed lost, w);
  forecast = λ r w. (failed lost, w);
  debit =
      λ r w. (reply (verdict (ltb w.0 100000)), if ltb w.0 100000 then spends r.tokens w else w);
  admit = λ r w. if ltb w.1 2 then (reply slot, (w.0, suc w.1, w.2)) else (failed lost, w);
  release = λ r w. (reply tt, (w.0, w.1, r.dropped ∷ w.2));
  heartbeat = λ ids w. (failed lost, w);
}

abbrev quiet : World
quiet = (0, 0, [])

abbrev empty : Client
empty = record { next = 0; at = λ i. none; pump = none }

-- The same service, with the leases returned for its world.
abbrev logging : RateLimiterStub (List String)
logging = record {
  check = λ r w. (failed lost, w);
  check_many = λ r w. (failed lost, w);
  peek = λ r w. (failed lost, w);
  forecast = λ r w. (failed lost, w);
  debit = λ r w. (failed lost, w);
  admit = λ r w. (reply slot, w);
  release = λ r w. (failed lost, r.lease_id ∷ w);
  heartbeat = λ ids w. (failed lost, w);
}

abbrev log : ReleaseLog logging
log = record { returned = λ w. w; admit_adds_none = λ r w. refl; release_adds = λ r w. refl }

press_cap_releases_example :
    let (r, c', w') = press_cap logging 4 empty [] in
    (r ≡ (hold_slots logging 4 [] empty []).0)
    × ((i : ℕ) (a : Admission)
        → 0 ≤ i
        → c'.at i ≡ some a
        → a.decision.allowed ≡ true
        → (a.released ≡ true) × (held a ≡ true → has_text a.lease_id w' ≡ true))
unfolding swallow
press_cap_releases_example =
    press_cap_releases logging log (λ request w. refl) 4 empty [] (λ i h. refl)

-- The third `Admit` fails with two slots held: both are released, and the failure is raised on.
pressed :
    let (r, c', w') = press_cap service 4 empty quiet in
    (r ≡ err (mapped lost)) × (w' ≡ (0, 2, false ∷ false ∷ []))
unfolding press_cap hold_slots slot_taken admit admit_reply admitted new_admission decision_of
    finally_release release_slots release_at release start_release swallow mapped by_status
pressed = (refl, refl)

counted_in_full :
    (tokens : ℕ) (w w' : World) (msg : DecisionMessage)
    → service.debit (record { policy = "completions"; key = "tenant-1"; tokens = pos tokens }) w
      ≡ (reply msg, w')
    → msg.allowed ≡ true
    → (w.0 < 100000) × w.0 + tokens ≤ w'.0
counted_in_full tokens w w' msg e allows = ground (arith, e, allows)

abbrev limits : TokenBudget service 100000
limits = record { spent = λ w. w.0; admits = counted_in_full }

stream_within_budget_example :
    let (r, ds, w') = meter_stream service (fake_stream 5 30000) quiet in
    ((tokens_admitted (fake_stream 5 30000) ds ≡ 0)
      ⊎ 0 + tokens_admitted (fake_stream 5 30000) ds < 100000 + 30000)
    × (stops_at_refusal ds ≡ true)
stream_within_budget_example =
    stream_within_budget service 100000 limits 30000 (fake_stream 5 30000) quiet
      (fake_stream-NoneOver 5 30000)

-- The fourth chunk crosses the budget and is admitted, and the fifth is refused.
streamed : (token_budget_main service (λ w. w) quiet).2.0 ≡ 120000
unfolding token_budget_main budget_block meter_stream fake_stream metered debit decoded decision_of
    with_backend close_backend stop_pump_of
streamed = refl

-- The program of all three axes.
toured : (service_main service (λ w. w) quiet).2 ≡ (3, 1, false ∷ [])
unfolding service_main axes_block check_times check debit decoded decision_of with_admit entered
    leave exit_at exit release start_release swallow admit admit_reply admitted new_admission
    with_backend close_backend stop_pump_of
toured = refl

-- The service is down from the third section on, after a block that ends well and one that raises.
admitted_twice :
    let (r, c, w) = admissions_main service (λ w. w) quiet in
    (r ≡ err (mapped lost)) × (w ≡ (0, 2, true ∷ false ∷ []))
unfolding admissions_main admissions failing_work press_cap hold_slots slot_taken finally_release
    release_slots with_admit entered leave exit_at exit release start_release swallow admit
    admit_reply admitted new_admission decision_of mapped by_status with_backend close_backend
    stop_pump_of
admitted_twice = (refl, refl)

-- A `gather` that runs the calls in turn.
abbrev in_turn : List (World → Result Decision × World) → World → Result (List Decision) × World
in_turn [] w = (ok [], w)
in_turn (call ∷ calls) w = call w ▸ (λ d w'. in_turn calls w' ▸ (λ ds w''. (ok (d ∷ ds), w'')))

async_toured : (async_main service (λ c. c) in_turn (λ w. w) quiet).2 ≡ (0, 1, false ∷ [])
unfolding async_main async_axes after_checks hold_once user_keys Async.check Async.resumed
    AsyncCalls.admit AsyncCalls.admit_resumed AsyncCalls.aexit AsyncCalls.release
    AsyncCalls.after_start AsyncCalls.release_resumed AsyncAdmission.admitted
    AsyncAdmission.new_admission AsyncAdmission.start_release decision_of
async_toured = refl

-- An outage, in which the route runs.
abbrev down : RateLimiterStub World
down = record service { check = λ r w. (failed lost, w) }

abbrev replace : Dict String → Dict String → Dict String
replace new old = new

items_in_outage :
    (get_items down (λ w. pos 0) replace (some "peer") [] quiet).0 ≡ body (("status", "ok") ∷ []) []
unfolding get_items limit_api items dependency answer_of asked resolve_async resolve_sync
    bind_policy service_policy check decoded mapped by_status key_request_peer take_outcome
items_in_outage = refl
