-- ===== src/Service/Thread/Alive.antt =====
-- The thread of the pump of src/throttlekit/service_backend.py while the pump is not stopped.
use throttlekit_py.Base.{
  ℕ, String, lookup, remove, keys, has_text, keys_has_text, true, false, ◌⊎◌, inl, inr, Option,
  none, some, List, [], ◌≡◌, refl, arith,
}
use throttlekit_py.Service.Admission.{Pump, new_pump, register, deregister}
use throttlekit_py.Service.Thread.{
  Position, waiting, woken, calling, finished, Threads, after_wait, stop_pump, Step, registers,
  deregisters, launches, times_out, sees_stop, lists, replies, fails, dies, stops, shuts, Reach,
  here, next_step,
}

-- The step is not a heartbeat that ends in an exception other than an RpcError.
abbrev pub Survives : {s t : Threads} → Step s t → Type 0
Survives (registers id i) = Unit
Survives (deregisters id) = Unit
Survives (launches begun_is none_yet) = Unit
Survives (times_out stands going) = Unit
Survives (sees_stop stands stopped) = Unit
Survives (lists stands) = Unit
Survives (replies ids rids stands) = Unit
Survives (fails ids stands) = Unit
Survives (dies ids stands) = ⊥
Survives stops = Unit
Survives (shuts stopped) = Unit

abbrev pub NoDeath : {s t : Threads} → Reach s t → Type 0
NoDeath here = Unit
NoDeath (next_step reached st) = NoDeath reached × Survives st

-- The thread has not ended; if it does not run yet it is about to, or there is nothing to renew.
abbrev Runs : Pump → Option Position → Type 0
Runs p none = (p.started ≡ true) ⊎ (p.open_leases ≡ [])
Runs p (some waiting) = Unit
Runs p (some woken) = Unit
Runs p (some (calling ids)) = Unit
Runs p (some finished) = ⊥

abbrev IsServed : Threads → Type 0
IsServed s = (s.pump.stopped ≡ true) ⊎ Runs s.pump s.thread

after_wait-Runs : (p : Pump) → Runs p (some (after_wait p))
unfolding after_wait
after_wait-Runs p = ground arith

registered-Runs :
    (id : String) (i : ℕ) (p : Pump) (o : Option Position) → Runs p o → Runs (register id i p) o
unfolding register
registered-Runs id i p none v = inl refl
registered-Runs id i p (some at) v = ground arith

deregistered-Runs :
    (id : String) (p : Pump) (o : Option Position) → Runs p o → Runs (deregister id p) o
unfolding deregister remove
deregistered-Runs id p none v = ground arith
deregistered-Runs id p (some at) v = ground arith

Step-IsServed : {s t : Threads} (st : Step s t) → Survives st → IsServed s → IsServed t
unfolding register deregister stop_pump
Step-IsServed (registers id i) alive (inl stopped) = inl stopped
Step-IsServed {s} (registers id i) alive (inr v) = inr (registered-Runs id i s.pump s.thread v)
Step-IsServed (deregisters id) alive (inl stopped) = inl stopped
Step-IsServed {s} (deregisters id) alive (inr v) = inr (deregistered-Runs id s.pump s.thread v)
Step-IsServed (launches begun_is none_yet) alive v = inr tt
Step-IsServed (times_out stands going) alive v = inr tt
Step-IsServed (sees_stop stands stopped) alive v = inl stopped
Step-IsServed {s} (lists stands) alive v = inr (after_wait-Runs s.pump)
Step-IsServed (replies ids rids stands) alive v = inr tt
Step-IsServed (fails ids stands) alive v = inr tt
Step-IsServed (dies ids stands) alive v = elim alive [ ]
Step-IsServed stops alive v = inl refl
Step-IsServed (shuts stopped) alive v = inl stopped

Reach-IsServed : {s t : Threads} (reached : Reach s t) → NoDeath reached → IsServed s → IsServed t
Reach-IsServed here alive v = v
Reach-IsServed (next_step reached st) (alive, survives) v =
    Step-IsServed st survives (Reach-IsServed reached alive v)

-- The heartbeat that follows the wait lists the lease.
abbrev pub IsListedNext : String → Pump → Type 0
IsListedNext k p = (ids : List String) × (after_wait p ≡ calling ids) × (has_text k ids ≡ true)

-- The thread stands at a heartbeat, from which it goes back to its wait; or at its wait, or after it, and will
-- list the lease; or it is about to start.
abbrev pub IsRenewedFrom : String → Pump → Option Position → Type 0
IsRenewedFrom k p none = p.started ≡ true
IsRenewedFrom k p (some waiting) = IsListedNext k p
IsRenewedFrom k p (some woken) = IsListedNext k p
IsRenewedFrom k p (some (calling ids)) = Unit
IsRenewedFrom k p (some finished) = ⊥

listed_next : (k : String) (p : Pump) → has_text k (keys p.open_leases) ≡ true → IsListedNext k p
unfolding after_wait
listed_next k p e = (keys p.open_leases, ground arith, e)

Runs-IsRenewedFrom :
    (k : String) (i : ℕ) (p : Pump) (o : Option Position)
    → lookup k p.open_leases ≡ some i
    → Runs p o
    → IsRenewedFrom k p o
unfolding lookup
Runs-IsRenewedFrom k i p none found v = ground arith
Runs-IsRenewedFrom k i p (some waiting) found v =
    listed_next k p (keys_has_text k i p.open_leases found)
Runs-IsRenewedFrom k i p (some woken) found v =
    listed_next k p (keys_has_text k i p.open_leases found)
Runs-IsRenewedFrom k i p (some (calling ids)) found v = tt
Runs-IsRenewedFrom k i p (some finished) found v = v

-- From a new pump on, while the pump is not stopped, and no heartbeat has ended in an exception other than
-- an RpcError, for each registered lease: the thread is at a heartbeat, from which it goes back to its
-- wait, or it waits or has waited and its next heartbeat lists the lease, or it has not begun to run and
-- is started; it has not ended, whatever heartbeats have failed with an RpcError.
pub registered_lease_beats :
    {s t : Threads} (k : String) (i : ℕ) (reached : Reach s t)
    → s.pump ≡ new_pump
    → s.thread ≡ none
    → NoDeath reached
    → t.pump.stopped ≡ false
    → lookup k t.pump.open_leases ≡ some i
    → IsRenewedFrom k t.pump t.thread
unfolding new_pump
registered_lease_beats {s} {t} k i reached fresh none_yet alive going found =
    let start : IsServed s = rw (fresh, none_yet) (inr (inr refl)) in
    elim (Reach-IsServed reached alive start) [
      | inl stopped ↦ absurd (ground arith)
      | inr v ↦ Runs-IsRenewedFrom k i t.pump t.thread found v
    ]
