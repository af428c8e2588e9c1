-- ===== src/ServiceAsync/Loop/Closing.antt =====
-- After `aclose` of src/throttlekit/service_backend_async.py.
use throttlekit_py.Base.{
  ℕ, String, same_text, not, ◌&&◌, true, false, Option, none, some, List, ◌≡◌, ◌≢◌, refl, ◌∙◌,
  arith,
}
use throttlekit_py.ServiceAsync.Loop.Pumps.{admitted_keeps, start_release_keeps}
use throttlekit_py.ServiceAsync.Admission.{
  new_admission, admitted, start_release, deregister_if, close_pump_of, AsyncPump, Task, sleeping,
  beating, ended, register, deregister, ensure_pump, close_pump,
}
use throttlekit_py.ServiceAsync.Loop.{
  System, closed_client, Step, admits, releases, times_out, wakes, replies, fails, closes, Reach,
  here, next_step,
}

abbrev Quiet : Option Task → Type 0
Quiet none = Unit
Quiet (some sleeping) = Unit
Quiet (some (beating ids)) = ⊥
Quiet (some ended) = Unit

-- The event of the pump is set, and its task, if it has one, awaits no heartbeat.
abbrev pub IsClosed : Option AsyncPump → Type 0
IsClosed none = ⊥
IsClosed (some p) = (p.stop ≡ true) × Quiet p.task

going_open : (p : AsyncPump) → IsClosed (some p) → p.stop ≢ false
going_open p v e = ground arith

awaits_none : (p : AsyncPump) (ids : List String) → IsClosed (some p) → p.task ≢ some (beating ids)
awaits_none p ids v e = ground arith

registered-IsClosed :
    (id : String) (n : ℕ) (o : Option AsyncPump)
    → IsClosed o
    → IsClosed (some (register id n (ensure_pump o)))
unfolding register ensure_pump
registered-IsClosed id n none v = elim v [ ]
registered-IsClosed id n (some p) v = ground arith

deregistered-IsClosed :
    (id : String) (p : AsyncPump) → IsClosed (some p) → IsClosed (some (deregister id p))
unfolding deregister
deregistered-IsClosed id p v = v

close_pump_of-IsClosed : (o : Option AsyncPump) → IsClosed o → IsClosed (close_pump_of o)
unfolding close_pump_of close_pump
close_pump_of-IsClosed none v = v
close_pump_of-IsClosed (some p) v = (refl, tt)

-- Whatever the tasks do, a closed pump stays closed and begins no heartbeat.
Step-IsClosed :
    {s t : System}
    → Step s t
    → IsClosed s.client.pump
    → IsClosed t.client.pump × (t.beats ≡ s.beats)
Step-IsClosed {s} (admits resp heartbeat) v = (
  admitted_keeps IsClosed registered-IsClosed deregistered-IsClosed resp heartbeat s.client v,
  refl,
)
Step-IsClosed {s} (releases i a here_is) v =
    (start_release_keeps IsClosed registered-IsClosed deregistered-IsClosed i a s.client v, refl)
Step-IsClosed (times_out p is_pump asleep going) v = absurd (going_open p (rw is_pump at v) going)
Step-IsClosed (wakes p is_pump asleep stopped) v = ((stopped, tt), refl)
Step-IsClosed (replies p ids rids is_pump awaits) v =
    absurd (awaits_none p ids (rw is_pump at v) awaits)
Step-IsClosed (fails p ids is_pump awaits) v = absurd (awaits_none p ids (rw is_pump at v) awaits)
Step-IsClosed {s} closes v = (close_pump_of-IsClosed s.client.pump v, refl)

pub Reach-IsClosed :
    {s t : System}
    → Reach s t
    → IsClosed s.client.pump
    → IsClosed t.client.pump × (t.beats ≡ s.beats)
Reach-IsClosed here v = (v, refl)
Reach-IsClosed (next_step reached st) v =
    let (still, same) = Reach-IsClosed reached v in
    let (after, kept) = Step-IsClosed st still in (after, kept ∙ same)

-- The step is not the admission, with heartbeats and a slot, that makes a pump.
abbrev pub NeedsNoPump : {s t : System} → Step s t → Type 0
NeedsNoPump (admits resp heartbeat) = (heartbeat && not (same_text resp.lease_id "")) ≡ false
NeedsNoPump (releases i a here_is) = Unit
NeedsNoPump (times_out p is_pump asleep going) = Unit
NeedsNoPump (wakes p is_pump asleep stopped) = Unit
NeedsNoPump (replies p ids rids is_pump awaits) = Unit
NeedsNoPump (fails p ids is_pump awaits) = Unit
NeedsNoPump closes = Unit

abbrev pub AllNeedNoPump : {s t : System} → Reach s t → Type 0
AllNeedNoPump here = Unit
AllNeedNoPump (next_step reached st) = AllNeedNoPump reached × NeedsNoPump st

Step-no_pump :
    {s t : System} (st : Step s t)
    → NeedsNoPump st
    → s.client.pump ≡ none
    → (t.client.pump ≡ none) × (t.beats ≡ s.beats)
unfolding admitted new_admission start_release deregister_if close_pump_of
Step-no_pump (admits resp heartbeat) plain e = (rw (plain, e) refl, refl)
Step-no_pump (releases i a here_is) plain e = (ground arith, refl)
Step-no_pump (times_out p is_pump asleep going) plain e = absurd (ground arith)
Step-no_pump (wakes p is_pump asleep stopped) plain e = absurd (ground arith)
Step-no_pump (replies p ids rids is_pump awaits) plain e = absurd (ground arith)
Step-no_pump (fails p ids is_pump awaits) plain e = absurd (ground arith)
Step-no_pump closes plain e = (rw e refl, refl)

Reach-no_pump :
    {s t : System} (reached : Reach s t)
    → AllNeedNoPump reached
    → s.client.pump ≡ none
    → (t.client.pump ≡ none) × (t.beats ≡ s.beats)
Reach-no_pump here plain e = (e, refl)
Reach-no_pump (next_step reached st) (plains, plain) e =
    let (still, same) = Reach-no_pump reached plains e in
    let (after, kept) = Step-no_pump st plain still in (after, kept ∙ same)

-- Once `aclose` has begun on a client that has a pump, no heartbeat is begun any more, whatever the tasks do:
-- not by the task that it cancels, and not for a later admission. On a client that has none, no heartbeat
-- is begun until an admission with heartbeats and a slot is made, which makes a new pump.
pub no_beat_after_close :
    {s t : System} (reached : Reach (record s { client = closed_client s.client }) t)
    → ((p : AsyncPump) → s.client.pump ≡ some p → (t.beats ≡ s.beats) × IsClosed t.client.pump)
      × (s.client.pump ≡ none
          → AllNeedNoPump reached
          → (t.beats ≡ s.beats) × (t.client.pump ≡ none))
unfolding close_pump_of close_pump
no_beat_after_close {s} reached = (
  λ p is_pump.
      let (closed, same) = Reach-IsClosed reached (rw is_pump (refl, tt)) in (same, closed),
  λ none_yet plain.
      let (still, same) = Reach-no_pump reached plain (rw none_yet refl) in (same, still),
)
