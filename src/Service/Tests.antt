-- ===== src/Service/Tests.antt =====
-- The calls of `ServiceBackend` at concrete inputs, and each theorem about them at an input.
use throttlekit_py.Base.{
  ℕ, suc, pos, lookup, insert, remove, keys, Bool, true, false, Option, none, some, [], ◌∷◌, ◌≡◌,
  refl,
}
use throttlekit_py.Grpc.{StatusCode, RpcError, reply, failed}
use throttlekit_py.Service.{DecisionMessage, AdmitResponse, RateLimiterStub, decision_of}
use throttlekit_py.Service.Admission.{
  Admission, Client, new_admission, admitted, register, ensure_pump, start_release, release, beat,
  reclaim, reclaim_all, reclaim_from, pop_and_mark, mark_at, deregister,
}
use throttlekit_py.Service.Lifecycle.Leases.{open_of}

abbrev allow : DecisionMessage
allow = record {
  allowed = true;
  limit = pos 2;
  remaining = pos 1;
  reset_at = pos 0;
  retry_after_ms = pos 0;
}

abbrev slot : AdmitResponse
slot = record {
  decision = allow;
  lease_id = "lease-1";
  lease_expires_at = pos 2000;
  binding_axis = "";
  policy_denied = false;
}

abbrev lost : RpcError
lost = record { code = StatusCode.unavailable; details = some "down" }

-- A service whose state counts the calls of `Release`; `Peek` is unavailable, and `Heartbeat` reports
-- the lease as reclaimed.
abbrev counting : RateLimiterStub ℕ
counting = record {
  check = λ r n. (reply allow, n);
  check_many = λ r n. (reply (allow ∷ []), n);
  peek = λ r n. (failed lost, n);
  forecast = λ r n.
      (reply (record { spendable_now = pos 1; next_replenish_at = pos 0; full_at = pos 0 }), n);
  debit = λ r n. (reply allow, n);
  admit = λ r n. (reply slot, n);
  release = λ r n. (failed lost, suc n);
  heartbeat =
      λ ids n. (reply (record { live_ids = []; reclaimed_ids = ids; next_deadline = pos 0 }), n);
}

abbrev empty : Client
empty = record { next = 0; at = λ i. none; pump = none }

abbrev holder : Admission
holder = record {
  decision = record {
    allowed = true;
    limit = pos 2;
    remaining = pos 1;
    reset_at = pos 0;
    retry_after_ms = pos 0;
  };
  lease_id = "lease-1";
  lease_expires_at = pos 2000;
  binding_axis = "";
  policy_denied = false;
  heartbeat = true;
  released = false;
  reclaimed = false;
}

abbrev holding : Client
holding = admitted slot true empty

-- A beat reports the lease: the admission is reclaimed, and no longer renewed.
abbrev outcome : Option Admission → Bool × Bool
outcome none = (false, false)
outcome (some a) = (a.released, a.reclaimed)

reclaimed_by_beat :
    let (b, c, n) = beat counting holding 0 in
    (outcome (c.at 0) ≡ (true, true)) × (open_of c.pump ≡ [])
unfolding beat admitted new_admission decision_of ensure_pump register insert keys reclaim_all
    reclaim reclaim_from pop_and_mark mark_at deregister remove lookup
reclaimed_by_beat = (refl, refl)

holding_at : holding.at 0 ≡ some holder
unfolding admitted new_admission decision_of
holding_at = refl

abbrev spent_holder : Admission
spent_holder = record holder { released = true }

after_release : (release counting false 0 holder holding 0).1.at 0 ≡ some spent_holder
unfolding release start_release
after_release = refl
