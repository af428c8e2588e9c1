-- ===== src/ServiceAsync/Loop/Releases.antt =====
-- The `Release` calls of the admissions of src/throttlekit/service_backend_async.py.
use throttlekit_py.Base.{
  ℕ, ◌≤◌, String, lookup, Bool, true, false, Option, none, some, List, [], ◌∷◌, ◌≡◌, refl, arith,
}
use throttlekit_py.Service.{AdmitResponse}
use throttlekit_py.ServiceAsync.Admission.{
  AsyncAdmission, held, AsyncClient, AsyncPump, sleeping, deregister, admitted, start_release,
  mark_at, pop_and_mark, reclaim_from, reclaim, reclaim_all,
}
use throttlekit_py.ServiceAsync.Loop.{
  System, bump, with_pump, Step, admits, releases, times_out, wakes, replies, fails, closes, Reach,
  here, next_step, IsStart,
}

-- An admission and its `Release` calls.
abbrev Sound : AsyncAdmission → ℕ → Type 0
Sound a n =
    (a.reclaimed ≡ true → a.released ≡ true)
    × (a.released ≡ false → n ≡ 0)
    × (held a ≡ false → n ≡ 0)
    × (n ≤ 1)
    × (a.released ≡ true → a.reclaimed ≡ false → held a ≡ true → n ≡ 1)

pub record SoundStore (at : ℕ → Option AsyncAdmission) (next : ℕ) (sent : ℕ → ℕ) : Type 0 where
  pub fresh : (i : ℕ) → next ≤ i → (at i ≡ none) × (sent i ≡ 0)
  pub sound : (i : ℕ) (a : AsyncAdmission) → at i ≡ some a → Sound a (sent i)

abbrev pub Inv : System → Type 0
Inv s = SoundStore s.client.at s.client.next s.sent

admits-Inv :
    (s : System) (resp : AdmitResponse) (heartbeat : Bool)
    → Inv s
    → Inv (record s { client = admitted resp heartbeat s.client })
unfolding admitted
admits-Inv s resp heartbeat v = record {
  fresh = λ i h. ground (arith, v.fresh i);
  sound = λ i a e. ground (arith, v.fresh i, v.sound i a);
}

releases-Inv :
    (s : System) (i : ℕ) (a : AsyncAdmission)
    → s.client.at i ≡ some a
    → Inv s
    → Inv (record s {
      client = (start_release i a s.client).1;
      sent = bump s.sent i (start_release i a s.client).0;
    })
unfolding start_release
releases-Inv s i a here_is v = record {
  fresh = λ j h. ground (arith, v.fresh j);
  sound = λ j b e. ground (arith, v.sound i a, v.sound j b);
}

module _ (sent : ℕ → ℕ) where
  abbrev ClientInv : AsyncClient → Type 0
  ClientInv c = SoundStore c.at c.next sent

  mark_at-Inv :
      (i : ℕ) (o : Option AsyncAdmission) (c : AsyncClient)
      → c.at i ≡ o
      → ClientInv c
      → ClientInv (mark_at i o c)
  unfolding mark_at
  mark_at-Inv i none c e v = v
  mark_at-Inv i (some a) c e v = record {
    fresh = λ j h. ground (arith, v.fresh j);
    sound = λ j b eq. ground (arith, v.sound i a, v.sound j b);
  }

  pop_and_mark-Inv :
      (rid : String) (p : AsyncPump) (o : Option ℕ) (c : AsyncClient)
      → ClientInv c
      → ClientInv (pop_and_mark rid p o c)
  unfolding pop_and_mark
  pop_and_mark-Inv rid p none c v = v
  pop_and_mark-Inv rid p (some i) c v =
      mark_at-Inv i (c.at i) (with_pump (deregister rid p) c) refl
        (record { fresh = v.fresh; sound = v.sound })

  reclaim_from-Inv :
      (rid : String) (o : Option AsyncPump) (c : AsyncClient)
      → ClientInv c
      → ClientInv (reclaim_from rid o c)
  unfolding reclaim_from
  reclaim_from-Inv rid none c v = v
  reclaim_from-Inv rid (some p) c v = pop_and_mark-Inv rid p (lookup rid p.open_leases) c v

  reclaim_all-Inv :
      (rids : List String) (c : AsyncClient) → ClientInv c → ClientInv (reclaim_all rids c)
  unfolding reclaim_all reclaim
  reclaim_all-Inv [] c v = v
  reclaim_all-Inv (rid ∷ rids) c v =
      reclaim_all-Inv rids (reclaim rid c) (reclaim_from-Inv rid c.pump c v)

pub Step-Inv : {s t : System} → Step s t → Inv s → Inv t
Step-Inv {s} (admits resp heartbeat) v = admits-Inv s resp heartbeat v
Step-Inv {s} (releases i a here_is) v = releases-Inv s i a here_is v
Step-Inv (times_out p is_pump asleep going) v = record { fresh = v.fresh; sound = v.sound }
Step-Inv (wakes p is_pump asleep stopped) v = record { fresh = v.fresh; sound = v.sound }
Step-Inv {s} (replies p ids rids is_pump awaits) v =
    reclaim_all-Inv s.sent rids (with_pump (record p { task = some sleeping }) s.client)
      (record { fresh = v.fresh; sound = v.sound })
Step-Inv (fails p ids is_pump awaits) v = record { fresh = v.fresh; sound = v.sound }
Step-Inv closes v = record { fresh = v.fresh; sound = v.sound }

pub Reach-Inv : {s t : System} → Reach s t → Inv s → Inv t
Reach-Inv here v = v
Reach-Inv (next_step r st) v = Step-Inv st (Reach-Inv r v)

pub IsStart-Inv : {s : System} → IsStart s → Inv s
IsStart-Inv v = record {
  fresh = λ i h. (v.no_admissions i, v.none_sent i);
  sound = λ i a e. absurd (ground (arith, v.no_admissions i));
}

-- However many tasks release an admission, and however their releases interleave with the heartbeats
-- and the closing of the backend, `Release` is called for it once at most, not at all if it holds no
-- slot or has not been marked released, and once if it holds a slot, is marked released and has not been
-- reclaimed; and one that the server has reclaimed is marked released.
pub async_admission_lifecycle :
    {s t : System} (i : ℕ) (a : AsyncAdmission)
    → IsStart s
    → Reach s t
    → t.client.at i ≡ some a
    → (t.sent i ≤ 1)
      × (held a ≡ false → t.sent i ≡ 0)
      × (a.released ≡ false → t.sent i ≡ 0)
      × (held a ≡ true → a.released ≡ true → a.reclaimed ≡ false → t.sent i ≡ 1)
      × (a.reclaimed ≡ true → a.released ≡ true)
async_admission_lifecycle i a start reached here_is =
    let (reclaimed, unreleased, slotless, once, sent_once) =
      (Reach-Inv reached (IsStart-Inv start)).sound i a here_is in
    (once, slotless, unreleased, (λ h r k. sent_once r k h), reclaimed)
