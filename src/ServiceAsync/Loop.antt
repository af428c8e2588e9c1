-- ===== src/ServiceAsync/Loop.antt =====
-- The tasks of an event loop over one `AsyncServiceBackend` (src/throttlekit/service_backend_async.py).
-- Between two awaits a task runs without others, so a step goes from one await to the next. An await
-- that is cancelled leaves the state as it is.
pub mod Pumps
pub mod Releases
pub mod Renewals
pub mod Closing
pub mod Alive
use throttlekit_py.Base.{
  ℕ, suc, ◌+◌, String, ◌==◌, Bool, true, false, Option, none, some, List, ◌≡◌, if◌then◌else◌,
}
use throttlekit_py.Service.{AdmitResponse}
use throttlekit_py.ServiceAsync.Admission.{
  AsyncAdmission, AsyncClient, AsyncPump, Task, sleeping, beating, ended, admitted, start_release,
  reclaim_all, after_timeout, close_pump_of,
}

-- `sent i`: the `Release` RPCs begun for admission `i`. `beats`: the `Heartbeat` RPCs begun.
pub record System : Type 0 where
  pub client : AsyncClient
  pub open client use *
  pub sent : ℕ → ℕ
  pub beats : ℕ

abbrev pub bump : (ℕ → ℕ) → ℕ → Bool → ℕ → ℕ
bump f i made j = if i == j then (if made then suc (f j) else f j) else f j

abbrev pub with_pump : AsyncPump → AsyncClient → AsyncClient
with_pump p c = record c { pump = some p }

abbrev pub closed_client : AsyncClient → AsyncClient
closed_client c = record c { pump = close_pump_of c.pump }

-- The heartbeats that a task has begun when it comes to stand so.
abbrev pub begun : Task → ℕ
begun sleeping = 0
begun (beating ids) = 1
begun ended = 0

pub data Step (s : System) : System → Type 0 where
  admits :
      (resp : AdmitResponse) (heartbeat : Bool)
      → Step s (record s { client = admitted resp heartbeat s.client })
  -- Any task may ask any admission's release, whatever others have asked.
  releases :
      (i : ℕ) (a : AsyncAdmission)
      → s.client.at i ≡ some a
      → Step s (record s {
        client = (start_release i a s.client).1;
        sent = bump s.sent i (start_release i a s.client).0;
      })
  times_out :
      (p : AsyncPump)
      → s.client.pump ≡ some p
      → p.task ≡ some sleeping
      → p.stop ≡ false
      → Step s (record s {
        client = with_pump (record p { task = some (after_timeout p) }) s.client;
        beats = s.beats + begun (after_timeout p);
      })
  -- The wait returns, since the event is set, and so does `_run`.
  wakes :
      (p : AsyncPump)
      → s.client.pump ≡ some p
      → p.task ≡ some sleeping
      → p.stop ≡ true
      → Step s (record s { client = with_pump (record p { task = some ended }) s.client })
  -- The reply to the heartbeat that the task awaits.
  replies :
      (p : AsyncPump) (ids reclaimed_ids : List String)
      → s.client.pump ≡ some p
      → p.task ≡ some (beating ids)
      → Step s (record s {
        client = reclaim_all reclaimed_ids (with_pump (record p { task = some sleeping }) s.client);
      })
  -- The heartbeat raises an `Exception`.
  fails :
      (p : AsyncPump) (ids : List String)
      → s.client.pump ≡ some p
      → p.task ≡ some (beating ids)
      → Step s (record s { client = with_pump (record p { task = some sleeping }) s.client })
  -- `aclose`, which cancels the task, if there is a pump, wherever it stands.
  closes : Step s (record s { client = closed_client s.client })

pub data Reach (s : System) : System → Type 0 where
  here : Reach s s
  next_step : {t u : System} → Reach s t → Step t u → Reach s u

-- A client that has made no admission.
pub record IsStart (s : System) : Type 0 where
  pub no_admissions : (i : ℕ) → s.client.at i ≡ none
  pub none_sent : (i : ℕ) → s.sent i ≡ 0
  pub no_pump : s.client.pump ≡ none
