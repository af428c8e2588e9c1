-- ===== src/Service/Lifecycle/Late.antt =====
-- The releases of an admission after one thread has marked it (src/throttlekit/service_backend.py).
use throttlekit_py.Base.{
  ℕ, suc, ◌+◌, ◌≤◌, String, lookup, Bool, true, false, Option, none, some, List, [], ◌∷◌, ◌≡◌,
  arith,
}
use throttlekit_py.Service.Admission.{
  Admission, Client, Pump, new_admission, deregister, start_release, mark_at, pop_and_mark,
  reclaim_from, reclaim, reclaim_all,
}
use throttlekit_py.Service.Lifecycle.{
  System, current, client_at, Step, admits, misses, makes, registers, enters, sends, reclaims,
  Reach, here, next_step,
}

abbrev pub is_released : Option Admission → Bool
is_released none = false
is_released (some a) = a.released

-- Admission `i` has been made, and is marked released.
abbrev pub IsMarked : ℕ → Client → Type 0
IsMarked i c = (suc i ≤ c.next) × (is_released (c.at i) ≡ true)

mark_at-IsMarked :
    (i j : ℕ) (o : Option Admission) (c : Client) → IsMarked i c → IsMarked i (mark_at j o c)
unfolding mark_at
mark_at-IsMarked i j none c v = v
mark_at-IsMarked i j (some a) c v = ground arith

pop_and_mark-IsMarked :
    (i : ℕ) (rid : String) (p : Pump) (o : Option ℕ) (c : Client)
    → IsMarked i c
    → IsMarked i (pop_and_mark rid p o c)
unfolding pop_and_mark
pop_and_mark-IsMarked i rid p none c v = v
pop_and_mark-IsMarked i rid p (some j) c v =
    mark_at-IsMarked i j (c.at j) (record c { pump = some (deregister rid p) }) v

reclaim_from-IsMarked :
    (i : ℕ) (rid : String) (o : Option Pump) (c : Client)
    → IsMarked i c
    → IsMarked i (reclaim_from rid o c)
unfolding reclaim_from
reclaim_from-IsMarked i rid none c v = v
reclaim_from-IsMarked i rid (some p) c v =
    pop_and_mark-IsMarked i rid p (lookup rid p.open_leases) c v

reclaim_all-IsMarked :
    (i : ℕ) (rids : List String) (c : Client) → IsMarked i c → IsMarked i (reclaim_all rids c)
unfolding reclaim_all
reclaim_all-IsMarked i [] c v = v
reclaim_all-IsMarked i (rid ∷ rids) c v =
    reclaim_all-IsMarked i rids (reclaim rid c)
      (unfold reclaim in reclaim_from-IsMarked i rid c.pump c v)

abbrev Closed : ℕ → ℕ → System → Type 0
Closed i n s = IsMarked i (client_at (current s) s) × (s.sent i + s.entered i ≤ n)

Step-Closed : (i n : ℕ) {s t : System} → Step s t → Closed i n s → Closed i n t
unfolding new_admission start_release
Step-Closed i n (admits resp heartbeat plain) v = ground arith
Step-Closed i n (misses none_yet) v = v
Step-Closed i n (makes m under_way) v = v
Step-Closed i n (registers k p resp is_pump slot) v = ground arith
Step-Closed i n {s} (enters j a here_is unmarked) v = ground arith
Step-Closed i n {s} (sends j k a here_is under_way) v = ground arith
Step-Closed i n {s} (reclaims k ids) v = (reclaim_all-IsMarked i ids (client_at k s) v.0, v.1)

Reach-Closed : (i n : ℕ) {s t : System} → Reach s t → Closed i n s → Closed i n t
Reach-Closed i n here v = v
Reach-Closed i n (next_step reached st) v = Step-Closed i n st (Reach-Closed i n reached v)

-- However many threads release an admission, from when it is marked released no more `Release` calls are
-- made for it than threads had found it unmarked before and have not gone on yet; and it stays marked.
late_releases :
    {s t : System} (i : ℕ)
    → IsMarked i (client_at (current s) s)
    → Reach s t
    → (t.sent i ≤ s.sent i + s.entered i) × IsMarked i (client_at (current t) t)
late_releases {s} i marked reached =
    let (still, bound) = Reach-Closed i (s.sent i + s.entered i) reached (marked, ground arith) in
    (ground arith, still)
