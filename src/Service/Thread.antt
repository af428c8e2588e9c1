-- ===== src/Service/Thread.antt =====
-- The thread of `_HeartbeatPump` in src/throttlekit/service_backend.py, with `close`, and the other threads
-- that use the pump. What a reply does to the admissions is in Service/Admission; here is the pump alone.
pub mod Stopping
pub mod Alive
mod Tests
use throttlekit_py.Base.{
  ℕ, suc, ◌+◌, String, keys, Bool, true, false, Option, none, some, List, [], ◌∷◌, ◌≡◌,
  if◌then◌else◌,
}
use throttlekit_py.Service.Admission.{Pump, register, deregister}

-- Where the thread stands in `_run`: at the wait, after a wait that returned False, at the heartbeat for
-- the leases that it has listed, or at its end.
pub data Position : Type 0 where
  waiting : Position
  woken : Position
  calling : List String → Position
  finished : Position

-- The pump, its thread once that runs, the `Heartbeat` RPCs begun, and whether the channel is open.
pub record Threads : Type 0 where
  pub pump : Pump
  pub thread : Option Position
  pub beats : ℕ
  pub channel_open : Bool

-- `ids = list(self._open)`, and `continue` or the call.
unfoldable pub after_wait : Pump → Position
after_wait p = elim (keys p.open_leases) [ [] ↦ waiting | id ∷ ids ↦ calling (id ∷ ids) ]

abbrev pub begun : Position → ℕ
begun waiting = 0
begun woken = 0
begun (calling ids) = 1
begun finished = 0

-- `self._open.pop(rid, None)` for each.
unfoldable pub pop_all : List String → Pump → Pump
unfolding deregister
pop_all [] p = p
pop_all (rid ∷ rids) p = pop_all rids (deregister rid p)

-- `self._stop.set()`
unfoldable pub stop_pump : Pump → Pump
stop_pump p = record p { stopped = true }

pub data Step (s : Threads) : Threads → Type 0 where
  registers : (id : String) (i : ℕ) → Step s (record s { pump = register id i s.pump })
  deregisters : (id : String) → Step s (record s { pump = deregister id s.pump })
  launches : s.pump.started ≡ true → s.thread ≡ none → Step s (record s { thread = some waiting })
  -- The wait times out: the event was not set.
  times_out :
      s.thread ≡ some waiting → s.pump.stopped ≡ false → Step s (record s { thread = some woken })
  sees_stop :
      s.thread ≡ some waiting → s.pump.stopped ≡ true → Step s (record s { thread = some finished })
  lists :
      s.thread ≡ some woken
      → Step s (record s {
        thread = some (after_wait s.pump);
        beats = s.beats + begun (after_wait s.pump);
      })
  replies :
      (ids rids : List String)
      → s.thread ≡ some (calling ids)
      → Step s (record s { thread = some waiting; pump = pop_all rids s.pump })
  -- An `RpcError`.
  fails :
      (ids : List String)
      → s.thread ≡ some (calling ids)
      → Step s (record s { thread = some waiting })
  -- Another exception, such as that of a stub on a closed channel.
  dies :
      (ids : List String)
      → s.thread ≡ some (calling ids)
      → Step s (record s { thread = some finished })
  -- `close` of the pump sets the event; it then joins the thread, or gives up waiting for it.
  stops : Step s (record s { pump = stop_pump s.pump })
  -- `close` of the backend, after that.
  shuts : s.pump.stopped ≡ true → Step s (record s { channel_open = false })

pub data Reach (s : Threads) : Threads → Type 0 where
  here : Reach s s
  next_step : {t u : Threads} → Reach s t → Step t u → Reach s u
