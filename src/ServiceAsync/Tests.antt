-- ===== src/ServiceAsync/Tests.antt =====
-- An async client that holds one slot, and each theorem about it at an input.
use throttlekit_py.Base.{
  ◌&&◌, not, same_text, ℕ, suc, ◌+◌, ◌≤◌, pos, lookup, insert, keys, true, false, none, some, [],
  ◌∷◌, ◌≡◌, refl,
}
use throttlekit_py.Errors.{ok}
use throttlekit_py.Grpc.{StatusCode, RpcError, reply, failed}
use throttlekit_py.Service.{RateLimiterStub, AdmitResponse, decision_of}
use throttlekit_py.ServiceAsync.Admission.{
  AsyncAdmission, AsyncPump, sleeping, beating, held, new_admission, register, ensure_pump,
  new_pump, admitted, start_release, after_timeout,
}
use throttlekit_py.ServiceAsync.Calls.{admit, admit_resumed}
use throttlekit_py.ServiceAsync.Admission.{close_pump_of}
use throttlekit_py.ServiceAsync.Loop.{
  closed_client, System, bump, with_pump, begun, admits, releases, times_out, fails, Reach, here,
  next_step, IsStart,
}
use throttlekit_py.ServiceAsync.Loop.Releases.{async_admission_lifecycle}
use throttlekit_py.ServiceAsync.Loop.Renewals.{open_of, IsRenewable, async_pump_renews_held}
use throttlekit_py.ServiceAsync.Loop.Closing.{IsClosed, no_beat_after_close}
use throttlekit_py.ServiceAsync.Loop.Alive.{IsRenewedBy, open_lease_renewed}

abbrev slot : AdmitResponse
slot = record {
  decision = record {
    allowed = true;
    limit = pos 2;
    remaining = pos 1;
    reset_at = pos 0;
    retry_after_ms = pos 0;
  };
  lease_id = "lease-1";
  lease_expires_at = pos 2000;
  binding_axis = "";
  policy_denied = false;
}

abbrev start : System
start = record {
  client = record { next = 0; at = λ i. none; pump = none };
  sent = λ i. 0;
  beats = 0;
}

start-IsStart : IsStart start
start-IsStart = record { no_admissions = λ i. refl; none_sent = λ i. refl; no_pump = refl }

abbrev holder : AsyncAdmission
holder = record {
  decision = record {
    allowed = true;
    limit = pos 2;
    remaining = pos 1;
    reset_at = pos 0;
    retry_after_ms = pos 0;
  };
  lease_id = "lease-1";
  lease_expires_at = pos 2000;
  binding_axis = "";
  policy_denied = false;
  heartbeat = true;
  released = false;
  reclaimed = false;
}

abbrev spent_holder : AsyncAdmission
spent_holder = record holder { released = true }

abbrev holding : System
holding = record start { client = admitted slot true start.client }

holding_at : holding.client.at 0 ≡ some holder
unfolding admitted new_admission decision_of
holding_at = refl

-- Two tasks release the admission, one after the other has come to its await.
abbrev released_once : System
released_once = record holding {
  client = (start_release 0 holder holding.client).1;
  sent = bump holding.sent 0 (start_release 0 holder holding.client).0;
}

abbrev released_twice : System
released_twice = record released_once {
  client = (start_release 0 spent_holder released_once.client).1;
  sent = bump released_once.sent 0 (start_release 0 spent_holder released_once.client).0;
}

once_at : released_once.client.at 0 ≡ some spent_holder
unfolding start_release
once_at = refl

twice_at : released_twice.client.at 0 ≡ some spent_holder
unfolding start_release
twice_at = refl

both_released : Reach start released_twice
both_released =
    next_step (next_step (next_step here (admits slot true)) (releases 0 holder holding_at))
      (releases 0 spent_holder once_at)

sent_once : released_twice.sent 0 ≡ 1
unfolding start_release
sent_once = refl

async_admission_lifecycle_example :
    (released_twice.sent 0 ≤ 1)
    × (held spent_holder ≡ false → released_twice.sent 0 ≡ 0)
    × (spent_holder.released ≡ false → released_twice.sent 0 ≡ 0)
    × (held spent_holder ≡ true
        → spent_holder.released ≡ true
        → spent_holder.reclaimed ≡ false
        → released_twice.sent 0 ≡ 1)
    × (spent_holder.reclaimed ≡ true → spent_holder.released ≡ true)
async_admission_lifecycle_example =
    async_admission_lifecycle {s = start} {t = released_twice} 0 spent_holder start-IsStart
      both_released twice_at

registered : lookup "lease-1" (open_of holding.client.pump) ≡ some 0
unfolding admitted new_admission ensure_pump register insert lookup
registered = refl

async_pump_renews_held_example : IsRenewable "lease-1" 0 (holding.client.at 0)
async_pump_renews_held_example =
    async_pump_renews_held {s = start} {t = holding} "lease-1" 0 start-IsStart
      (next_step here (admits slot true)) registered

abbrev waiting : AsyncPump
waiting = record { open_leases = ("lease-1", 0) ∷ []; task = some sleeping; stop = false }

holding_pump : holding.client.pump ≡ some waiting
unfolding admitted new_admission ensure_pump new_pump register insert
holding_pump = refl

abbrev beaten : AsyncPump
beaten = record waiting { task = some (after_timeout waiting) }

-- A heartbeat has been begun.
abbrev beating_once : System
beating_once = record holding {
  client = with_pump beaten holding.client;
  beats = 0 + begun (after_timeout waiting);
}

beaten_task : beaten.task ≡ some (beating ("lease-1" ∷ []))
unfolding after_timeout keys
beaten_task = refl

-- It fails.
abbrev failed_once : System
failed_once = record beating_once {
  client = with_pump (record beaten { task = some sleeping }) beating_once.client;
}

failed_reached : Reach start failed_once
failed_reached =
    next_step
      (next_step (next_step here (admits slot true)) (times_out waiting holding_pump refl refl))
      (fails beaten ("lease-1" ∷ []) refl beaten_task)

open_lease_renewed_example : IsRenewedBy "lease-1" (record beaten { task = some sleeping })
unfolding lookup
open_lease_renewed_example =
    open_lease_renewed {s = start} {t = failed_once} (record beaten { task = some sleeping })
      "lease-1" 0 start-IsStart failed_reached refl refl refl

abbrev closed_once : System
closed_once = record beating_once { client = closed_client beating_once.client }

-- An admission that comes after the closing starts a task.
abbrev admitted_late : System
admitted_late = record closed_once { client = admitted slot true closed_once.client }

no_beat_after_close_example :
    ((p : AsyncPump)
      → beating_once.client.pump ≡ some p
      → (admitted_late.beats ≡ beating_once.beats) × IsClosed admitted_late.client.pump)
    × (beating_once.client.pump ≡ none
        → Unit {0} × ((true && not (same_text slot.lease_id "")) ≡ false)
        → (admitted_late.beats ≡ beating_once.beats) × (admitted_late.client.pump ≡ none))
no_beat_after_close_example =
    no_beat_after_close {s = beating_once} {t = admitted_late} (next_step here (admits slot true))

-- Without a pump, nothing is closed, and a later admission with heartbeats makes one that is open.
admitted_unclosed : (admitted slot true (closed_client start.client)).pump ≡ some waiting
unfolding close_pump_of admitted new_admission ensure_pump new_pump register insert
admitted_unclosed = refl

abbrev lost : RpcError
lost = record { code = StatusCode.unavailable; details = none }

-- A service whose `Release` is unavailable, and counts its calls.
abbrev failing : RateLimiterStub ℕ
failing = record {
  check = λ r n. (failed lost, n);
  check_many = λ r n. (failed lost, n);
  peek = λ r n. (failed lost, n);
  forecast = λ r n. (failed lost, n);
  debit = λ r n. (failed lost, n);
  admit = λ r n. (reply slot, n);
  release = λ r n. (failed lost, suc n);
  heartbeat = λ ids n. (failed lost, n);
}

admitted_alone :
    admit failing (λ c. c) "api" "user" (pos 1) (pos 0) (pos 1) true start.client 0
    ≡ (ok 0, holding.client, 0)
unfolding admit admit_resumed
admitted_alone = refl
