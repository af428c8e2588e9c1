-- ===== src/Service/Lifecycle/Leases.antt =====
-- What the calls of a client keep of the leases that its pump renews
-- (src/throttlekit/service_backend.py).
use throttlekit_py.Base.{
  ℕ, String, same_text, Dict, lookup, lookup-insert, lookup-remove, eq_iff, Bool, true, false, ◌&&◌,
  Option, none, some, List, [], ◌∷◌, ◌≡◌, ◌≢◌, refl, ap, ◌∙◌, arith, if◌then◌else◌,
}
use throttlekit_py.Service.Admission.{
  Admission, held, Client, Pump, register, deregister, deregister_if, ensure_pump, start_release,
  mark_at, pop_and_mark, reclaim_from, reclaim, reclaim_all,
}
use throttlekit_py.Service.Lifecycle.{put, calls_after}

abbrev pub open_of : Option Pump → Dict ℕ
open_of none = []
open_of (some p) = p.open_leases

-- An admission under the lease, to be renewed: it wants heartbeats, holds its slot, has not been
-- reclaimed, and no `Release` call has been made for it.
abbrev pub IsRenewable : String → ℕ → Option Admission → Type 0
IsRenewable k n none = ⊥
IsRenewable k n (some a) =
    (a.lease_id ≡ k) × (a.heartbeat ≡ true) × (held a ≡ true) × (a.reclaimed ≡ false) × (n ≡ 0)

abbrev pub Renews : Client → (ℕ → ℕ) → Type 0
Renews c sent =
    (k : String) (i : ℕ) → lookup k (open_of c.pump) ≡ some i → IsRenewable k (sent i) (c.at i)

pub lookup-register :
    (k id : String) (n : ℕ) (o : Option Pump)
    → lookup k (register id n (ensure_pump o)).open_leases
      ≡ (if same_text id k then some n else lookup k (open_of o))
unfolding register ensure_pump
lookup-register k id n none = lookup-insert id k n []
lookup-register k id n (some p) = lookup-insert id k n p.open_leases

pub lookup-deregister_if :
    (k id : String) (heartbeat : Bool) (o : Option Pump)
    → lookup k (open_of (deregister_if heartbeat id o))
      ≡ (if heartbeat && same_text id k then none else lookup k (open_of o))
unfolding deregister_if lookup
lookup-deregister_if k id heartbeat none = ground arith
lookup-deregister_if k id true (some p) = lookup-remove id k p.open_leases
lookup-deregister_if k id false (some p) = refl

pub sends-Renews :
    (i : ℕ) (a : Admission) (c : Client) (sent : ℕ → ℕ)
    → c.at i ≡ some a
    → Renews c sent
    → Renews (start_release i a c) (put sent i (calls_after (held a) (sent i)))
unfolding start_release
sends-Renews i a c sent here_is r k j e =
    ground (arith, lookup-deregister_if k a.lease_id a.heartbeat c.pump, eq_iff a.lease_id k, r k j)

module _ (sent : ℕ → ℕ) where
  mark_at-Renews :
      (i : ℕ) (o : Option Admission) (c : Client)
      → c.at i ≡ o
      → ((k : String) → lookup k (open_of c.pump) ≢ some i)
      → Renews c sent
      → Renews (mark_at i o c) sent
  unfolding mark_at
  mark_at-Renews i none c e closed r = r
  mark_at-Renews i (some a) c e closed r = λ k j eq. ground (arith, closed k, r k j)

  popped_closed :
      (rid k : String) (p : Pump) (i : ℕ) (o : Option Admission) (n : ℕ)
      → (lookup rid p.open_leases ≡ some i → IsRenewable rid n o)
      → (lookup k p.open_leases ≡ some i → IsRenewable k n o)
      → lookup rid p.open_leases ≡ some i
      → lookup k (deregister rid p).open_leases ≢ some i
  unfolding deregister
  popped_closed rid k p i none n at_rid at_k found e = at_rid found
  popped_closed rid k p i (some a) n at_rid at_k found e =
      ground (arith, lookup-remove rid k p.open_leases, eq_iff rid k, at_rid found)

  deregister-Renews :
      (rid : String) (p : Pump) (c : Client)
      → c.pump ≡ some p
      → Renews c sent
      → Renews (record c { pump = some (deregister rid p) }) sent
  unfolding deregister
  deregister-Renews rid p c e r k i eq = ground (arith, lookup-remove rid k p.open_leases, r k i)

  pop_and_mark-Renews :
      (rid : String) (p : Pump) (o : Option ℕ) (c : Client)
      → c.pump ≡ some p
      → lookup rid p.open_leases ≡ o
      → Renews c sent
      → Renews (pop_and_mark rid p o c) sent
  unfolding pop_and_mark
  pop_and_mark-Renews rid p none c e found r = r
  pop_and_mark-Renews rid p (some i) c e found r =
      mark_at-Renews i (c.at i) (record c { pump = some (deregister rid p) }) refl
        (λ k. popped_closed rid k p i (c.at i) (sent i) (at_lease rid) (at_lease k) found)
        (deregister-Renews rid p c e r)
    where
      at_lease : (k : String) → lookup k p.open_leases ≡ some i → IsRenewable k (sent i) (c.at i)
      at_lease k eq = r k i (ap (λ q. lookup k (open_of q)) e ∙ eq)

  reclaim_from-Renews :
      (rid : String) (o : Option Pump) (c : Client)
      → c.pump ≡ o
      → Renews c sent
      → Renews (reclaim_from rid o c) sent
  unfolding reclaim_from
  reclaim_from-Renews rid none c e r = r
  reclaim_from-Renews rid (some p) c e r =
      pop_and_mark-Renews rid p (lookup rid p.open_leases) c e refl r

  pub reclaim_all-Renews :
      (rids : List String) (c : Client) → Renews c sent → Renews (reclaim_all rids c) sent
  unfolding reclaim_all reclaim
  reclaim_all-Renews [] c r = r
  reclaim_all-Renews (rid ∷ rids) c r =
      reclaim_all-Renews rids (reclaim rid c) (reclaim_from-Renews rid c.pump c refl r)
