-- ===== src/Service/Admission.antt =====
-- src/throttlekit/service_backend.py: `Admission`, `_HeartbeatPump` and the calls of
-- `ServiceBackend` that hold and return a slot. An admission is an object that the caller and the
-- pump share: it stands in a store, and both name it by its number there.
use throttlekit_py.Base.{
  ℕ, suc, String, ℤ, same_text, ◌==◌, Dict, lookup, insert, remove, keys, Bool, true, false, not,
  ◌&&◌, Option, none, some, List, [], ◌∷◌, if◌then◌else◌,
}
use throttlekit_py.Decision.{Decision}
use throttlekit_py.Errors.{Result, ok, err}
use throttlekit_py.Grpc.{Reply, reply, failed, broke}
use throttlekit_py.Service.{AdmitResponse, HeartbeatResponse, RateLimiterStub, decision_of, mapped}

pub record Admission : Type 0 where
  pub decision : Decision
  pub lease_id : String
  pub lease_expires_at : ℤ
  pub binding_axis : String
  pub policy_denied : Bool
  pub heartbeat : Bool
  pub released : Bool
  pub reclaimed : Bool

-- `Admission.__init__`, with the arguments that `admit` gives.
unfoldable pub new_admission : AdmitResponse → Bool → Admission
new_admission resp heartbeat = record {
  decision = decision_of resp.decision;
  lease_id = resp.lease_id;
  lease_expires_at = resp.lease_expires_at;
  binding_axis = resp.binding_axis;
  policy_denied = resp.policy_denied;
  heartbeat = heartbeat;
  released = false;
  reclaimed = false;
}

abbrev pub held : Admission → Bool
held a = not (same_text a.lease_id "")

unfoldable pub mark_reclaimed : Admission → Admission
mark_reclaimed a = record a { released = true; reclaimed = true }

-- `_HeartbeatPump`: the admissions to renew by lease, whether its thread was started, and its stop.
pub record Pump : Type 0 where
  pub open_leases : Dict ℕ
  pub started : Bool
  pub stopped : Bool

unfoldable pub new_pump : Pump
new_pump = record { open_leases = []; started = false; stopped = false }

unfoldable pub register : String → ℕ → Pump → Pump
register lease_id i p = record p { open_leases = insert lease_id i p.open_leases; started = true }

unfoldable pub deregister : String → Pump → Pump
deregister lease_id p = record p { open_leases = remove lease_id p.open_leases }

-- What a `ServiceBackend` and the holders of its admissions share. `next` is the number of the next
-- admission.
pub record Client : Type 0 where
  pub next : ℕ
  pub at : ℕ → Option Admission
  pub pump : Option Pump

abbrev pub write : (ℕ → Option Admission) → ℕ → Admission → ℕ → Option Admission
write store i a j = if i == j then some a else store j

-- `_ensure_pump`
unfoldable pub ensure_pump : Option Pump → Pump
unfolding new_pump
ensure_pump none = new_pump
ensure_pump (some p) = p

-- What `admit` does with the reply.
unfoldable pub admitted : AdmitResponse → Bool → Client → Client
unfolding new_admission ensure_pump register
admitted resp heartbeat c =
    let a = new_admission resp heartbeat in
    record c {
      next = suc c.next;
      at = write c.at c.next a;
      pump =
          if heartbeat && held a
          then some (register a.lease_id c.next (ensure_pump c.pump))
          else c.pump;
    }

-- The first lines of `_release_lease`.
unfoldable pub deregister_if : Bool → String → Option Pump → Option Pump
unfolding deregister
deregister_if heartbeat lease_id none = none
deregister_if heartbeat lease_id (some p) =
    if heartbeat then some (deregister lease_id p) else some p

-- `release` once it has found the admission not released, up to the RPC.
unfoldable pub start_release : ℕ → Admission → Client → Client
unfolding deregister_if
start_release i a c = record c {
  at = write c.at i (record a { released = true });
  pump = if held a then deregister_if a.heartbeat a.lease_id c.pump else c.pump;
}

-- `try: self._stub.Release(…) / except grpc.RpcError: pass`
unfoldable pub swallow : {W : Type 0} → Reply (Unit {0}) × W → Result (Unit {0}) × W
swallow (reply u, w) = (ok tt, w)
swallow (failed e, w) = (ok tt, w)
swallow (broke e, w) = (err e, w)

-- `_mark_reclaimed` of the object that the number names.
unfoldable pub mark_at : ℕ → Option Admission → Client → Client
unfolding mark_reclaimed
mark_at i none c = c
mark_at i (some a) c = record c { at = write c.at i (mark_reclaimed a) }

-- The admission that `self._open.pop(rid, None)` gives, if any, is marked.
unfoldable pub pop_and_mark : String → Pump → Option ℕ → Client → Client
pop_and_mark rid p none c = c
pop_and_mark rid p (some i) c = mark_at i (c.at i) (record c { pump = some (deregister rid p) })

unfoldable pub reclaim_from : String → Option Pump → Client → Client
reclaim_from rid none c = c
reclaim_from rid (some p) c = pop_and_mark rid p (lookup rid p.open_leases) c

-- The body of the loop over `resp.reclaimed_ids`.
unfoldable pub reclaim : String → Client → Client
reclaim rid c = reclaim_from rid c.pump c

-- The loop over `resp.reclaimed_ids`.
unfoldable pub reclaim_all : List String → Client → Client
reclaim_all [] c = c
reclaim_all (rid ∷ rids) c = reclaim_all rids (reclaim rid c)

-- `ids = list(self._open)`
abbrev pub beat_ids : Option Pump → List String
beat_ids none = []
beat_ids (some p) = keys p.open_leases

-- How a beat leaves the thread of the pump.
pub data Beat : Type 0 where
  goes_on dies : Beat

beat_reply : {W : Type 0} → Client → Reply HeartbeatResponse × W → Beat × Client × W
unfolding reclaim_all
beat_reply c (reply resp, w) = (goes_on, reclaim_all resp.reclaimed_ids c, w)
beat_reply c (failed e, w) = (goes_on, c, w)
beat_reply c (broke e, w) = (dies, c, w)

module _ {W : Type 0} (stub : RateLimiterStub W) where
  unfoldable pub admit_reply : Bool → Client → Reply AdmitResponse × W → Result ℕ × Client × W
  unfolding admitted
  admit_reply heartbeat c (reply resp, w) = (ok c.next, admitted resp heartbeat c, w)
  admit_reply heartbeat c (failed e, w) = (err (mapped e), c, w)
  admit_reply heartbeat c (broke e, w) = (err e, c, w)

  -- The number of the new admission.
  unfoldable pub admit : String → String → ℤ → ℤ → ℤ → Bool → Client → W → Result ℕ × Client × W
  unfolding admit_reply
  admit policy key cost hold value heartbeat c w = admit_reply heartbeat c (
      stub.admit (record { policy = policy; key = key; cost = cost; hold = hold; value = value }) w)

  -- `release` of an admission by one thread, without others between.
  unfoldable pub release : Bool → ℕ → Admission → Client → W → Result (Unit {0}) × Client × W
  unfolding start_release swallow
  release dropped i a c w =
      if a.released
      then (ok tt, c, w)
      else if held a
      then (let (r, w') =
            swallow (stub.release (record { lease_id = a.lease_id; dropped = dropped }) w) in
          (r, start_release i a c, w'))
      else (ok tt, start_release i a c, w)

  -- `__exit__`: whether the block raised.
  unfoldable pub exit : Bool → ℕ → Admission → Client → W → Result (Unit {0}) × Client × W
  unfolding release
  exit raised i a c w = release raised i a c w

  -- One beat of the pump's loop, without others between.
  unfoldable pub beat : Client → W → Beat × Client × W
  unfolding beat_reply
  beat c w = elim (beat_ids c.pump) [
    | [] ↦ (goes_on, c, w)
    | id ∷ ids ↦ beat_reply c (stub.heartbeat (id ∷ ids) w)
  ]
