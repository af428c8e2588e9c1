-- ===== src/Service/Thread/Tests.antt =====
-- A thread whose wait has timed out when the pump is stopped.
use throttlekit_py.Base.{
  ◌+◌, ◌≤◌, lookup, insert, keys, true, false, none, some, [], ◌∷◌, ◌≡◌, refl,
}
use throttlekit_py.Service.Admission.{new_pump, register}
use throttlekit_py.Service.Thread.Alive.{IsRenewedFrom, registered_lease_beats}
use throttlekit_py.Service.Thread.{
  Threads, waiting, woken, calling, registers, launches, after_wait, begun, stop_pump, lists, here,
  next_step,
}
use throttlekit_py.Service.Thread.Stopping.{pending, one_beat_after_stop}

abbrev awake : Threads
awake = record {
  pump = record { open_leases = ("lease-1", 0) ∷ []; started = true; stopped = false };
  thread = some woken;
  beats = 4;
  channel_open = true;
}

abbrev stopped : Threads
stopped = record awake { pump = stop_pump awake.pump }

abbrev called : Threads
called = record stopped {
  thread = some (after_wait stopped.pump);
  beats = 4 + begun (after_wait stopped.pump);
}

calls_once : (called.thread ≡ some (calling ("lease-1" ∷ []))) × (called.beats ≡ 5)
unfolding after_wait stop_pump keys
calls_once = (refl, refl)

one_beat_after_stop_example : called.beats ≤ 4 + pending (some woken)
one_beat_after_stop_example = one_beat_after_stop awake {t = called} (next_step here (lists refl))

abbrev fresh : Threads
fresh = record { pump = new_pump; thread = none; beats = 0; channel_open = true }

abbrev registered : Threads
registered = record fresh { pump = register "lease-1" 0 new_pump }

abbrev launched : Threads
launched = record registered { thread = some waiting }

started_at_register : registered.pump.started ≡ true
unfolding register
started_at_register = refl

registered_lease_beats_example : IsRenewedFrom "lease-1" launched.pump (some waiting)
unfolding register new_pump insert lookup
registered_lease_beats_example =
    registered_lease_beats {s = fresh} {t = launched} "lease-1" 0
      (next_step (next_step here (registers "lease-1" 0)) (launches started_at_register refl)) refl
      refl ((tt, tt), tt) refl refl
