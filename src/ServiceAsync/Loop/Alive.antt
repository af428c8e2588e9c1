-- ===== src/ServiceAsync/Loop/Alive.antt =====
-- The task of the pump of src/throttlekit/service_backend_async.py while the backend is open.
use throttlekit_py.Base.{
  ℕ, String, Dict, lookup, remove, keys, has_text, keys_has_text, true, false, Option, none, some,
  List, [], ◌≡◌, refl, ◌⊎◌, inl, inr, arith,
}
use throttlekit_py.ServiceAsync.Admission.{
  AsyncPump, Task, sleeping, beating, ended, register, deregister, ensure_pump, new_pump,
  after_timeout, close_pump, close_pump_of,
}
use throttlekit_py.ServiceAsync.Loop.{
  System, with_pump, Step, admits, releases, times_out, wakes, replies, fails, closes, Reach, here,
  next_step, IsStart,
}
use throttlekit_py.ServiceAsync.Loop.Pumps.{admitted_keeps, start_release_keeps, reclaim_all_keeps}

abbrev HasTask : Dict ℕ → Option Task → Type 0
HasTask leases none = leases ≡ []
HasTask leases (some sleeping) = Unit
HasTask leases (some (beating ids)) = Unit
HasTask leases (some ended) = ⊥

-- Unless the pump is closed, its task has not ended, and if it has none there is nothing to renew.
abbrev IsServed : Option AsyncPump → Type 0
IsServed none = Unit
IsServed (some p) = (p.stop ≡ true) ⊎ HasTask p.open_leases p.task

started-IsServed :
    (id : String) (n : ℕ) (p : AsyncPump) → IsServed (some p) → IsServed (some (register id n p))
unfolding register
started-IsServed id n p v = ground arith

registered-IsServed :
    (id : String) (n : ℕ) (o : Option AsyncPump)
    → IsServed o
    → IsServed (some (register id n (ensure_pump o)))
unfolding ensure_pump new_pump
registered-IsServed id n none v = started-IsServed id n _ (inr refl)
registered-IsServed id n (some p) v = started-IsServed id n p v

deregistered-IsServed :
    (id : String) (p : AsyncPump) → IsServed (some p) → IsServed (some (deregister id p))
unfolding deregister remove
deregistered-IsServed id p v = ground arith

timed_out-HasTask : (p : AsyncPump) → HasTask p.open_leases (some (after_timeout p))
unfolding after_timeout
timed_out-HasTask p = ground arith

closed-IsServed : (o : Option AsyncPump) → IsServed o → IsServed (close_pump_of o)
unfolding close_pump_of close_pump
closed-IsServed none v = v
closed-IsServed (some p) v = inl refl

Step-IsServed : {s t : System} → Step s t → IsServed s.client.pump → IsServed t.client.pump
Step-IsServed {s} (admits resp heartbeat) v =
    admitted_keeps IsServed registered-IsServed deregistered-IsServed resp heartbeat s.client v
Step-IsServed {s} (releases i a here_is) v =
    start_release_keeps IsServed registered-IsServed deregistered-IsServed i a s.client v
Step-IsServed (times_out p is_pump asleep going) v = inr (timed_out-HasTask p)
Step-IsServed (wakes p is_pump asleep stopped) v = inl stopped
Step-IsServed {s} (replies p ids rids is_pump awaits) v =
    reclaim_all_keeps IsServed registered-IsServed deregistered-IsServed rids
      (with_pump (record p { task = some sleeping }) s.client) (inr tt)
Step-IsServed (fails p ids is_pump awaits) v = inr tt
Step-IsServed {s} closes v = closed-IsServed s.client.pump v

Reach-IsServed : {s t : System} → Reach s t → IsServed s.client.pump → IsServed t.client.pump
Reach-IsServed here v = v
Reach-IsServed (next_step reached st) v = Step-IsServed st (Reach-IsServed reached v)

-- The task awaits a heartbeat, or will send one that lists the lease when its wait times out.
abbrev pub IsRenewedBy : String → AsyncPump → Type 0
IsRenewedBy k p =
    ((ids : List String) × (p.task ≡ some (beating ids)))
    ⊎ ((p.task ≡ some sleeping)
        × ((ids : List String) × (after_timeout p ≡ beating ids) × (has_text k ids ≡ true)))

listed_after_timeout :
    (k : String) (p : AsyncPump)
    → has_text k (keys p.open_leases) ≡ true
    → (ids : List String) × (after_timeout p ≡ beating ids) × (has_text k ids ≡ true)
unfolding after_timeout
listed_after_timeout k p e = (keys p.open_leases, ground arith, e)

HasTask-IsRenewedBy :
    (k : String) (i : ℕ) (p : AsyncPump) (o : Option Task)
    → lookup k p.open_leases ≡ some i
    → p.task ≡ o
    → HasTask p.open_leases o
    → IsRenewedBy k p
unfolding lookup
HasTask-IsRenewedBy k i p none found stands v = absurd (ground arith)
HasTask-IsRenewedBy k i p (some sleeping) found stands v =
    inr (stands, listed_after_timeout k p (keys_has_text k i p.open_leases found))
HasTask-IsRenewedBy k i p (some (beating ids)) found stands v = inl (ids, stands)
HasTask-IsRenewedBy k i p (some ended) found stands v = elim v [ ]

-- While the backend is not closed, the pump's task awaits the reply to a heartbeat, or it sleeps and the
-- heartbeat of its next timeout lists each registered lease, whatever heartbeats have failed and however
-- the tasks have interleaved.
pub open_lease_renewed :
    {s t : System} (p : AsyncPump) (k : String) (i : ℕ)
    → IsStart s
    → Reach s t
    → t.client.pump ≡ some p
    → p.stop ≡ false
    → lookup k p.open_leases ≡ some i
    → IsRenewedBy k p
open_lease_renewed p k i start reached is_pump going found =
    let served : IsServed (some p) = rw is_pump at (Reach-IsServed reached (rw start.no_pump tt)) in
    elim served [
      | inl stopped ↦ absurd (ground arith)
      | inr v ↦ HasTask-IsRenewedBy k i p p.task found refl v
    ]
