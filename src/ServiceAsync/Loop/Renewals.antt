-- ===== src/ServiceAsync/Loop/Renewals.antt =====
-- Which leases the task of src/throttlekit/service_backend_async.py renews.
use throttlekit_py.Base.{
  ℕ, String, same_text, Dict, lookup, lookup-insert, lookup-remove, eq_iff, Bool, true, false, ◌&&◌,
  Option, none, some, List, [], ◌∷◌, ◌≡◌, ◌≢◌, refl, sym, ap, ◌∙◌, arith, if◌then◌else◌,
}
use throttlekit_py.Service.{AdmitResponse}
use throttlekit_py.ServiceAsync.Admission.{
  AsyncAdmission, held, AsyncClient, AsyncPump, sleeping, ended, new_admission, register,
  deregister, deregister_if, ensure_pump, admitted, start_release, mark_at, pop_and_mark,
  reclaim_from, reclaim, reclaim_all, after_timeout, close_pump, close_pump_of,
}
use throttlekit_py.ServiceAsync.Loop.{
  System, bump, with_pump, Step, admits, releases, times_out, wakes, replies, fails, closes, Reach,
  here, next_step, IsStart,
}
use throttlekit_py.ServiceAsync.Loop.Releases.{Inv, Reach-Inv, IsStart-Inv}

abbrev pub open_of : Option AsyncPump → Dict ℕ
open_of none = []
open_of (some p) = p.open_leases

-- An admission under the lease that wants heartbeats, holds its slot, has not been reclaimed, and for
-- which no `Release` has been begun.
abbrev pub IsRenewable : String → ℕ → Option AsyncAdmission → Type 0
IsRenewable k n none = ⊥
IsRenewable k n (some a) =
    (a.lease_id ≡ k) × (a.heartbeat ≡ true) × (held a ≡ true) × (a.reclaimed ≡ false) × (n ≡ 0)

abbrev Renews : AsyncClient → (ℕ → ℕ) → Type 0
Renews c sent =
    (k : String) (i : ℕ) → lookup k (open_of c.pump) ≡ some i → IsRenewable k (sent i) (c.at i)

pub lookup-register :
    (k id : String) (n : ℕ) (o : Option AsyncPump)
    → lookup k (register id n (ensure_pump o)).open_leases
      ≡ (if same_text id k then some n else lookup k (open_of o))
unfolding register ensure_pump
lookup-register k id n none = lookup-insert id k n []
lookup-register k id n (some p) = lookup-insert id k n p.open_leases

lookup-deregister_if :
    (k id : String) (heartbeat : Bool) (o : Option AsyncPump)
    → lookup k (open_of (deregister_if heartbeat id o))
      ≡ (if heartbeat && same_text id k then none else lookup k (open_of o))
unfolding deregister_if lookup
lookup-deregister_if k id heartbeat none = ground arith
lookup-deregister_if k id true (some p) = lookup-remove id k p.open_leases
lookup-deregister_if k id false (some p) = refl

admits-Renews :
    (s : System) (resp : AdmitResponse) (heartbeat : Bool)
    → Inv s
    → Renews s.client s.sent
    → Renews (admitted resp heartbeat s.client) s.sent
unfolding admitted new_admission
admits-Renews s resp heartbeat v r k i e = ground (
  arith,
  lookup-register k resp.lease_id s.client.next s.client.pump,
  eq_iff resp.lease_id k,
  v.fresh s.client.next,
  r k i,
)

releases-Renews :
    (s : System) (i : ℕ) (a : AsyncAdmission)
    → s.client.at i ≡ some a
    → Renews s.client s.sent
    → Renews (start_release i a s.client).1 (bump s.sent i (start_release i a s.client).0)
unfolding start_release
releases-Renews s i a here_is r k j e =
    ground (
      arith,
      lookup-deregister_if k a.lease_id a.heartbeat s.client.pump,
      eq_iff a.lease_id k,
      r k j,
    )

module _ (sent : ℕ → ℕ) where
  -- The task and the event of the pump change, its leases stay.
  pumped-Renews :
      (p q : AsyncPump) (c : AsyncClient)
      → c.pump ≡ some p
      → q.open_leases ≡ p.open_leases
      → Renews c sent
      → Renews (with_pump q c) sent
  pumped-Renews p q c e same r k i eq =
      r k i (ap (λ o. lookup k (open_of o)) e ∙ ap (lookup k) (sym same) ∙ eq)

  closed-Renews :
      (o : Option AsyncPump) (c : AsyncClient)
      → c.pump ≡ o
      → Renews c sent
      → Renews (record c { pump = close_pump_of o }) sent
  unfolding close_pump_of close_pump lookup
  closed-Renews none c e r k i eq = absurd (ground arith)
  closed-Renews (some p) c e r k i eq = pumped-Renews p (close_pump p) c e refl r k i eq

  mark_at-Renews :
      (i : ℕ) (o : Option AsyncAdmission) (c : AsyncClient)
      → c.at i ≡ o
      → ((k : String) → lookup k (open_of c.pump) ≢ some i)
      → Renews c sent
      → Renews (mark_at i o c) sent
  unfolding mark_at
  mark_at-Renews i none c e closed r = r
  mark_at-Renews i (some a) c e closed r = λ k j eq. ground (arith, closed k, r k j)

  popped_closed :
      (rid k : String) (p : AsyncPump) (i : ℕ) (o : Option AsyncAdmission) (n : ℕ)
      → (lookup rid p.open_leases ≡ some i → IsRenewable rid n o)
      → (lookup k p.open_leases ≡ some i → IsRenewable k n o)
      → lookup rid p.open_leases ≡ some i
      → lookup k (deregister rid p).open_leases ≢ some i
  unfolding deregister
  popped_closed rid k p i none n at_rid at_k found e = at_rid found
  popped_closed rid k p i (some a) n at_rid at_k found e =
      ground (arith, lookup-remove rid k p.open_leases, eq_iff rid k, at_rid found)

  deregister-Renews :
      (rid : String) (p : AsyncPump) (c : AsyncClient)
      → c.pump ≡ some p
      → Renews c sent
      → Renews (with_pump (deregister rid p) c) sent
  unfolding deregister
  deregister-Renews rid p c e r k i eq = ground (arith, lookup-remove rid k p.open_leases, r k i)

  reclaim_from-Renews :
      (rid : String) (o : Option AsyncPump) (c : AsyncClient)
      → c.pump ≡ o
      → Renews c sent
      → Renews (reclaim_from rid o c) sent
  unfolding reclaim_from
  reclaim_from-Renews rid none c e r = r
  reclaim_from-Renews rid (some p) c e r = popped (lookup rid p.open_leases) refl
    where
      at_lease :
          (k : String) (i : ℕ) → lookup k p.open_leases ≡ some i → IsRenewable k (sent i) (c.at i)
      at_lease k i eq = r k i (ap (λ q. lookup k (open_of q)) e ∙ eq)

      popped : (o : Option ℕ) → lookup rid p.open_leases ≡ o → Renews (pop_and_mark rid p o c) sent
      popped none found = unfold pop_and_mark in r
      popped (some i) found =
          unfold pop_and_mark in
          (mark_at-Renews i (c.at i) (with_pump (deregister rid p) c) refl
            (λ k. popped_closed rid k p i (c.at i) (sent i) (at_lease rid i) (at_lease k i) found)
            (deregister-Renews rid p c e r))

  reclaim_all-Renews :
      (rids : List String) (c : AsyncClient) → Renews c sent → Renews (reclaim_all rids c) sent
  unfolding reclaim_all reclaim
  reclaim_all-Renews [] c r = r
  reclaim_all-Renews (rid ∷ rids) c r =
      reclaim_all-Renews rids (reclaim rid c) (reclaim_from-Renews rid c.pump c refl r)

Step-Renews : {s t : System} → Step s t → Inv s → Renews s.client s.sent → Renews t.client t.sent
unfolding close_pump
Step-Renews {s} (admits resp heartbeat) v r = admits-Renews s resp heartbeat v r
Step-Renews {s} (releases i a here_is) v r = releases-Renews s i a here_is r
Step-Renews {s} (times_out p is_pump asleep going) v r =
    pumped-Renews s.sent p (record p { task = some (after_timeout p) }) s.client is_pump refl r
Step-Renews {s} (wakes p is_pump asleep stopped) v r =
    pumped-Renews s.sent p (record p { task = some ended }) s.client is_pump refl r
Step-Renews {s} (replies p ids rids is_pump awaits) v r =
    reclaim_all-Renews s.sent rids (with_pump (record p { task = some sleeping }) s.client)
      (pumped-Renews s.sent p (record p { task = some sleeping }) s.client is_pump refl r)
Step-Renews {s} (fails p ids is_pump awaits) v r =
    pumped-Renews s.sent p (record p { task = some sleeping }) s.client is_pump refl r
Step-Renews {s} closes v r = closed-Renews s.sent s.client.pump s.client refl r

Reach-Renews : {s t : System} → Reach s t → Inv s → Renews s.client s.sent → Renews t.client t.sent
Reach-Renews here v r = r
Reach-Renews (next_step reached st) v r =
    Step-Renews st (Reach-Inv reached v) (Reach-Renews reached v r)

IsStart-Renews : {s : System} → IsStart s → Renews s.client s.sent
unfolding lookup
IsStart-Renews {s} v k i e = ground (arith, v.no_pump)

-- In every interleaving of tasks, each lease that the pump would renew is that of an admission which
-- was made with heartbeats and holds its slot, which the server has not reclaimed, and for which no
-- `Release` call has been begun.
pub async_pump_renews_held :
    {s t : System} (k : String) (i : ℕ)
    → IsStart s
    → Reach s t
    → lookup k (open_of t.client.pump) ≡ some i
    → IsRenewable k (t.sent i) (t.client.at i)
async_pump_renews_held k i start reached found =
    Reach-Renews reached (IsStart-Inv start) (IsStart-Renews start) k i found
