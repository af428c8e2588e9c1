-- ===== src/Service/Lifecycle/Invariant.antt =====
-- What every interleaving keeps of the releases, and so what holds of every admission
-- (src/throttlekit/service_backend.py).
use throttlekit_py.Base.{
  ℕ, suc, ◌+◌, ◌≤◌, String, lookup, Bool, true, false, Option, none, some, List, [], ◌∷◌, ◌≡◌, refl,
  arith,
}
use throttlekit_py.Service.{AdmitResponse}
use throttlekit_py.Service.Admission.{
  Admission, held, Client, Pump, new_admission, deregister, start_release, write, mark_at,
  pop_and_mark, reclaim_from, reclaim, reclaim_all,
}
use throttlekit_py.Service.Lifecycle.{
  System, put, current, client_at, calls_after, Step, admits, misses, makes, registers, enters,
  sends, reclaims, Reach, here, next_step, IsStart,
}

-- An admission, with the releases that have found it not released, those of them that have not gone on, and
-- its `Release` RPCs.
abbrev pub Sound : Admission → ℕ → ℕ → ℕ → Type 0
Sound a found entered n =
    (a.reclaimed ≡ true → a.released ≡ true)
    × (a.released ≡ false → n ≡ 0)
    × (held a ≡ false → n ≡ 0)
    × (held a ≡ true → n + entered ≡ found)
    × (a.released ≡ true → a.reclaimed ≡ false → held a ≡ true → 1 ≤ n)

pub record SoundStore (at : ℕ → Option Admission) (next : ℕ) (found entered sent : ℕ → ℕ)
    : Type 0 where
  pub fresh : (i : ℕ) → next ≤ i → (at i ≡ none) × (found i ≡ 0) × (entered i ≡ 0) × (sent i ≡ 0)
  pub sound : (i : ℕ) (a : Admission) → at i ≡ some a → Sound a (found i) (entered i) (sent i)

abbrev pub Inv : System → Type 0
Inv s = SoundStore s.at s.next s.found s.entered s.sent

admits-Inv :
    (s : System) (resp : AdmitResponse) (heartbeat : Bool)
    → Inv s
    → SoundStore
        (write s.at s.next (new_admission resp heartbeat))
        (suc s.next)
        s.found
        s.entered
        s.sent
unfolding new_admission
admits-Inv s resp heartbeat v = record {
  fresh = λ i h. ground (arith, v.fresh i);
  sound = λ i a e. ground (arith, v.fresh i, v.sound i a);
}

enters-Inv :
    (s : System) (i : ℕ) (a : Admission)
    → s.at i ≡ some a
    → a.released ≡ false
    → Inv s
    → SoundStore s.at s.next
        (put s.found i (suc (s.found i)))
        (put s.entered i (suc (s.entered i)))
        s.sent
enters-Inv s i a here_is unmarked v = record {
  fresh = λ j h. ground (arith, v.fresh j);
  sound = λ j b e. ground (arith, v.sound j b);
}

sends-Inv :
    (s : System) (i n : ℕ) (a : Admission) (c : Client)
    → c.at ≡ s.at
    → c.next ≡ s.next
    → s.at i ≡ some a
    → s.entered i ≡ suc n
    → Inv s
    → let c' = start_release i a c in
      SoundStore c'.at c'.next s.found
        (put s.entered i n)
        (put s.sent i (calls_after (held a) (s.sent i)))
unfolding start_release
sends-Inv s i n a c same_at same_next here_is under_way v =
    rw (same_at, same_next)
      (record {
        fresh = λ j h. ground (arith, v.fresh j);
        sound = λ j b e. ground (arith, v.sound i a, v.sound j b);
      })

module _ (found entered sent : ℕ → ℕ) where
  abbrev ClientInv : Client → Type 0
  ClientInv c = SoundStore c.at c.next found entered sent

  mark_at-Inv :
      (i : ℕ) (o : Option Admission) (c : Client)
      → c.at i ≡ o
      → ClientInv c
      → ClientInv (mark_at i o c)
  unfolding mark_at
  mark_at-Inv i none c e v = v
  mark_at-Inv i (some a) c e v = record {
    fresh = λ j h. ground (arith, v.fresh j);
    sound = λ j b eq. ground (arith, v.sound i a, v.sound j b);
  }

  pop_and_mark-Inv :
      (rid : String) (p : Pump) (o : Option ℕ) (c : Client)
      → ClientInv c
      → ClientInv (pop_and_mark rid p o c)
  unfolding pop_and_mark
  pop_and_mark-Inv rid p none c v = v
  pop_and_mark-Inv rid p (some i) c v =
      mark_at-Inv i (c.at i) (record c { pump = some (deregister rid p) }) refl
        (record { fresh = v.fresh; sound = v.sound })

  reclaim_from-Inv :
      (rid : String) (o : Option Pump) (c : Client) → ClientInv c → ClientInv (reclaim_from rid o c)
  unfolding reclaim_from
  reclaim_from-Inv rid none c v = v
  reclaim_from-Inv rid (some p) c v = pop_and_mark-Inv rid p (lookup rid p.open_leases) c v

  reclaim_all-Inv : (rids : List String) (c : Client) → ClientInv c → ClientInv (reclaim_all rids c)
  unfolding reclaim_all
  reclaim_all-Inv [] c v = v
  reclaim_all-Inv (rid ∷ rids) c v =
      reclaim_all-Inv rids (reclaim rid c) (unfold reclaim in reclaim_from-Inv rid c.pump c v)

pub Step-Inv : {s t : System} → Step s t → Inv s → Inv t
Step-Inv {s} (admits resp heartbeat plain) v = admits-Inv s resp heartbeat v
Step-Inv (misses none_yet) v = record { fresh = v.fresh; sound = v.sound }
Step-Inv (makes n under_way) v = record { fresh = v.fresh; sound = v.sound }
Step-Inv {s} (registers k p resp is_pump slot) v = admits-Inv s resp true v
Step-Inv {s} (enters i a here_is unmarked) v = enters-Inv s i a here_is unmarked v
Step-Inv {s} (sends i n a here_is under_way) v =
    sends-Inv s i n a (client_at (current s) s) refl refl here_is under_way v
Step-Inv {s} (reclaims k ids) v = reclaim_all-Inv s.found s.entered s.sent ids (client_at k s) v

pub Reach-Inv : {s t : System} → Reach s t → Inv s → Inv t
Reach-Inv here v = v
Reach-Inv (next_step r st) v = Step-Inv st (Reach-Inv r v)

pub IsStart-Inv : {s : System} → IsStart s → Inv s
IsStart-Inv v = record {
  fresh = λ i h. (v.no_admissions i, v.none_found i, v.none_entered i, v.none_sent i);
  sound = λ i a e. absurd (ground (arith, v.no_admissions i));
}

-- The step is not a release that finds another of the same admission under way.
abbrev pub IsApart : {s t : System} → Step s t → Type 0
IsApart (admits resp heartbeat plain) = Unit
IsApart (misses none_yet) = Unit
IsApart (makes n under_way) = Unit
IsApart (registers k p resp is_pump slot) = Unit
IsApart {s} (enters i a here_is unmarked) = s.entered i ≡ 0
IsApart (sends i n a here_is under_way) = Unit
IsApart (reclaims k ids) = Unit

abbrev pub AllApart : {s t : System} → Reach s t → Type 0
AllApart here = Unit
AllApart (next_step reached st) = AllApart reached × IsApart st

abbrev AtMostOne : System → Type 0
AtMostOne s = (i : ℕ) → s.sent i + s.entered i ≤ 1
