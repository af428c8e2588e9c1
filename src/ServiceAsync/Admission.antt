-- ===== src/ServiceAsync/Admission.antt =====
-- src/throttlekit/service_backend_async.py: `AsyncAdmission`, `_AsyncHeartbeatPump` and what
-- `AsyncServiceBackend` does with them between two awaits. Admissions stand in a store, by number,
-- since the caller and the pump share them.
use throttlekit_py.Base.{
  ℕ, suc, String, ℤ, same_text, ◌==◌, Dict, lookup, insert, remove, keys, Bool, true, false, not,
  ◌&&◌, Option, none, some, List, [], ◌∷◌, if◌then◌else◌,
}
use throttlekit_py.Decision.{Decision}
use throttlekit_py.Service.{AdmitResponse, decision_of}

pub record AsyncAdmission : Type 0 where
  pub decision : Decision
  pub lease_id : String
  pub lease_expires_at : ℤ
  pub binding_axis : String
  pub policy_denied : Bool
  pub heartbeat : Bool
  pub released : Bool
  pub reclaimed : Bool

-- `AsyncAdmission.__init__`, with the arguments that `admit` gives.
unfoldable pub new_admission : AdmitResponse → Bool → AsyncAdmission
new_admission resp heartbeat = record {
  decision = decision_of resp.decision;
  lease_id = resp.lease_id;
  lease_expires_at = resp.lease_expires_at;
  binding_axis = resp.binding_axis;
  policy_denied = resp.policy_denied;
  heartbeat = heartbeat;
  released = false;
  reclaimed = false;
}

abbrev pub held : AsyncAdmission → Bool
held a = not (same_text a.lease_id "")

unfoldable pub mark_reclaimed : AsyncAdmission → AsyncAdmission
mark_reclaimed a = record a { released = true; reclaimed = true }

-- Where the task of a pump stands: at the `wait_for` of `_run`, at the `await` of a heartbeat for the
-- leases that it has listed, or at its end.
pub data Task : Type 0 where
  sleeping : Task
  beating : List String → Task
  ended : Task

-- `_AsyncHeartbeatPump`, with the task that `_task` names. `stop` is set or not.
pub record AsyncPump : Type 0 where
  pub open_leases : Dict ℕ
  pub task : Option Task
  pub stop : Bool

unfoldable pub new_pump : AsyncPump
new_pump = record { open_leases = []; task = none; stop = false }

-- `if self._task is None: self._task = asyncio.ensure_future(self._run())`; the new task comes to its
-- first await as the others do to theirs.
abbrev pub started : Option Task → Option Task
started none = some sleeping
started (some t) = some t

unfoldable pub register : String → ℕ → AsyncPump → AsyncPump
register lease_id i p = record p {
  open_leases = insert lease_id i p.open_leases;
  task = started p.task;
}

unfoldable pub deregister : String → AsyncPump → AsyncPump
deregister lease_id p = record p { open_leases = remove lease_id p.open_leases }

-- What an `AsyncServiceBackend` and the holders of its admissions share. `next` is the number of the
-- next admission.
pub record AsyncClient : Type 0 where
  pub next : ℕ
  pub at : ℕ → Option AsyncAdmission
  pub pump : Option AsyncPump

abbrev pub write : (ℕ → Option AsyncAdmission) → ℕ → AsyncAdmission → ℕ → Option AsyncAdmission
write store i a j = if i == j then some a else store j

-- `_ensure_pump`
unfoldable pub ensure_pump : Option AsyncPump → AsyncPump
unfolding new_pump
ensure_pump none = new_pump
ensure_pump (some p) = p

-- What `admit` does when it resumes with the reply.
unfoldable pub admitted : AdmitResponse → Bool → AsyncClient → AsyncClient
unfolding new_admission ensure_pump register
admitted resp heartbeat c =
    let a = new_admission resp heartbeat in
    record c {
      next = suc c.next;
      at = write c.at c.next a;
      pump =
          if heartbeat && held a
          then some (register a.lease_id c.next (ensure_pump c.pump))
          else c.pump;
    }

-- The first lines of `_release_lease`.
unfoldable pub deregister_if : Bool → String → Option AsyncPump → Option AsyncPump
unfolding deregister
deregister_if heartbeat lease_id none = none
deregister_if heartbeat lease_id (some p) =
    if heartbeat then some (deregister lease_id p) else some p

-- `release`, and so `__aexit__`, up to its await or its end: whether it has come to await `Release`,
-- and the client.
unfoldable pub start_release : ℕ → AsyncAdmission → AsyncClient → Bool × AsyncClient
unfolding deregister_if
start_release i a c = if a.released then (false, c) else (
  held a,
  record c {
    at = write c.at i (record a { released = true });
    pump = if held a then deregister_if a.heartbeat a.lease_id c.pump else c.pump;
  },
)

-- `_mark_reclaimed` of the object that the number names.
unfoldable pub mark_at : ℕ → Option AsyncAdmission → AsyncClient → AsyncClient
unfolding mark_reclaimed
mark_at i none c = c
mark_at i (some a) c = record c { at = write c.at i (mark_reclaimed a) }

-- The admission that `self._open.pop(rid, None)` gives, if any, is marked.
unfoldable pub pop_and_mark : String → AsyncPump → Option ℕ → AsyncClient → AsyncClient
pop_and_mark rid p none c = c
pop_and_mark rid p (some i) c = mark_at i (c.at i) (record c { pump = some (deregister rid p) })

unfoldable pub reclaim_from : String → Option AsyncPump → AsyncClient → AsyncClient
reclaim_from rid none c = c
reclaim_from rid (some p) c = pop_and_mark rid p (lookup rid p.open_leases) c

-- The body of the loop over `resp.reclaimed_ids`.
unfoldable pub reclaim : String → AsyncClient → AsyncClient
reclaim rid c = reclaim_from rid c.pump c

-- The loop over `resp.reclaimed_ids`.
unfoldable pub reclaim_all : List String → AsyncClient → AsyncClient
reclaim_all [] c = c
reclaim_all (rid ∷ rids) c = reclaim_all rids (reclaim rid c)

-- The task when its wait has timed out: `ids = list(self._open)`, then the next await.
unfoldable pub after_timeout : AsyncPump → Task
after_timeout p = elim (keys p.open_leases) [ [] ↦ sleeping | id ∷ ids ↦ beating (id ∷ ids) ]

-- `close` up to its await of the task: it sets the event, forgets the task and cancels it.
unfoldable pub close_pump : AsyncPump → AsyncPump
close_pump p = record p { task = none; stop = true }

-- What `aclose` does with the pump before it waits: it closes it, if there is one.
unfoldable pub close_pump_of : Option AsyncPump → Option AsyncPump
unfolding close_pump
close_pump_of none = none
close_pump_of (some p) = some (close_pump p)
