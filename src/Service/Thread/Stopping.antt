-- ===== src/Service/Thread/Stopping.antt =====
-- After `close` of src/throttlekit/service_backend.py has set the event of the pump.
use throttlekit_py.Base.{
  ℕ, ◌+◌, ◌≤◌, String, true, Option, none, some, List, [], ◌∷◌, ◌≡◌, refl, arith,
}
use throttlekit_py.Service.Admission.{Pump, register, deregister}
use throttlekit_py.Service.Thread.{
  Position, waiting, woken, calling, finished, Threads, after_wait, pop_all, stop_pump, Step,
  registers, deregisters, launches, times_out, sees_stop, lists, replies, fails, dies, stops, shuts,
  Reach, here, next_step,
}

-- The heartbeats that a thread may begin without another wait.
abbrev pub pending : Option Position → ℕ
pending none = 0
pending (some waiting) = 0
pending (some woken) = 1
pending (some (calling ids)) = 0
pending (some finished) = 0

pop_all-stopped : (rids : List String) (p : Pump) → (pop_all rids p).stopped ≡ p.stopped
unfolding pop_all deregister
pop_all-stopped [] p = refl
pop_all-stopped (rid ∷ rids) p = pop_all-stopped rids (deregister rid p)

abbrev Bounded : Threads → ℕ → Type 0
Bounded s n = (s.pump.stopped ≡ true) × (s.beats + pending s.thread ≤ n)

Step-Bounded : {s t : Threads} (n : ℕ) → Step s t → Bounded s n → Bounded t n
unfolding register deregister stop_pump after_wait
Step-Bounded n (registers id i) v = v
Step-Bounded n (deregisters id) v = v
Step-Bounded n (launches begun_is none_yet) v = ground arith
Step-Bounded n (times_out stands going) v = ground arith
Step-Bounded n (sees_stop stands stopped) v = ground arith
Step-Bounded n (lists stands) v = ground arith
Step-Bounded {s} n (replies ids rids stands) v = ground (arith, pop_all-stopped rids s.pump)
Step-Bounded n (fails ids stands) v = ground arith
Step-Bounded n (dies ids stands) v = ground arith
Step-Bounded n stops v = ground arith
Step-Bounded n (shuts stopped) v = v

Reach-Bounded : {s t : Threads} (n : ℕ) → Reach s t → Bounded s n → Bounded t n
Reach-Bounded n here v = v
Reach-Bounded n (next_step reached st) v = Step-Bounded n st (Reach-Bounded n reached v)

-- After `close` has set the event, the thread begins one heartbeat at most, and only if its wait had
-- timed out before.
pub one_beat_after_stop :
    (s : Threads) {t : Threads}
    → Reach (record s { pump = stop_pump s.pump }) t
    → t.beats ≤ s.beats + pending s.thread
unfolding stop_pump
one_beat_after_stop s reached =
    omega (arith, (Reach-Bounded (s.beats + pending s.thread) reached (refl, omega arith)).1)
