-- ===== src/Service/Lifecycle/Renewals.antt =====
-- Which leases the pump that the client holds renews, in every interleaving
-- (src/throttlekit/service_backend.py).
use throttlekit_py.Base.{
  ℕ, suc, ◌≤◌, String, same_text, lookup, lookup-remove, eq_iff, Bool-cases, ◌==◌, true, false,
  Option, none, some, List, [], ◌∷◌, inl, inr, ◌≡◌, ◌≢◌, refl, ap, ◌∙◌, arith,
}
use throttlekit_py.Service.{AdmitResponse}
use throttlekit_py.Service.Admission.{
  Admission, held, Client, Pump, new_admission, new_pump, register, deregister, ensure_pump,
  start_release, write, mark_at, pop_and_mark, reclaim_from, reclaim, reclaim_all,
}
use throttlekit_py.Service.Lifecycle.{
  System, put, current, client_at, put_client, calls_after, Step, admits, misses, makes, registers,
  enters, sends, reclaims, Reach, here, next_step, IsStart,
}
use throttlekit_py.Service.Lifecycle.Invariant.{Inv, Reach-Inv, IsStart-Inv}
use throttlekit_py.Service.Lifecycle.Leases.{
  open_of, IsRenewable, Renews, lookup-register, lookup-deregister_if, sends-Renews,
  reclaim_all-Renews,
}

-- What pump `k` lists has been registered with it.
abbrev Listed : ℕ → ℕ → (ℕ → ℕ) → Option Pump → Type 0
Listed k next home o =
    (rid : String) (i : ℕ) → lookup rid (open_of o) ≡ some i → (home i ≡ k) × (suc i ≤ next)

-- The work of pump `k` on the admissions: those of the other pumps are as they were.
module _ (k next : ℕ) (home : ℕ → ℕ) (at : ℕ → Option Admission) where
  record Kept (c : Client) : Type 0 where
    pub same_next : c.next ≡ next
    pub same_others : (i : ℕ) → home i ≢ k → c.at i ≡ at i
    pub listed : Listed k next home c.pump

  mark_at-Kept :
      (i : ℕ) (o : Option Admission) (c : Client) → home i ≡ k → Kept c → Kept (mark_at i o c)
  unfolding mark_at
  mark_at-Kept i none c e v = v
  mark_at-Kept i (some a) c e v = record {
    same_next = v.same_next;
    same_others = λ j apart. ground (arith, v.same_others j);
    listed = v.listed;
  }

  pop_and_mark-Kept :
      (rid : String) (p : Pump) (o : Option ℕ) (c : Client)
      → c.pump ≡ some p
      → lookup rid p.open_leases ≡ o
      → Kept c
      → Kept (pop_and_mark rid p o c)
  unfolding pop_and_mark deregister
  pop_and_mark-Kept rid p none c e found v = v
  pop_and_mark-Kept rid p (some i) c e found v =
      mark_at-Kept i (c.at i) (record c { pump = some (deregister rid p) })
        (listed_at rid i found).0
        (record {
          same_next = v.same_next;
          same_others = v.same_others;
          listed = λ r j eq. ground (arith, lookup-remove rid r p.open_leases, listed_at r j);
        })
    where
      listed_at :
          (r : String) (j : ℕ) → lookup r p.open_leases ≡ some j → (home j ≡ k) × (suc j ≤ next)
      listed_at r j eq = v.listed r j (ap (λ q. lookup r (open_of q)) e ∙ eq)

  reclaim_from-Kept :
      (rid : String) (o : Option Pump) (c : Client)
      → c.pump ≡ o
      → Kept c
      → Kept (reclaim_from rid o c)
  unfolding reclaim_from
  reclaim_from-Kept rid none c e v = v
  reclaim_from-Kept rid (some p) c e v =
      pop_and_mark-Kept rid p (lookup rid p.open_leases) c e refl v

  reclaim_all-Kept : (rids : List String) (c : Client) → Kept c → Kept (reclaim_all rids c)
  unfolding reclaim_all
  reclaim_all-Kept [] c v = v
  reclaim_all-Kept (rid ∷ rids) c v =
      reclaim_all-Kept rids (reclaim rid c)
        (unfold reclaim in reclaim_from-Kept rid c.pump c refl v)

record Tidy (s : System) : Type 0 where
  pub renews : Renews (client_at (current s) s) s.sent
  pub homes : (k : ℕ) → Listed k s.next s.home (s.pumps k)

admits-Tidy :
    (s : System) (a : Admission)
    → Tidy s
    → Tidy (record s { next = suc s.next; at = write s.at s.next a })
admits-Tidy s a v = record {
  renews = λ r i e. ground (arith, v.renews r i, v.homes (current s) r i);
  homes = λ k r i e. ground (arith, v.homes k r i);
}

makes-Tidy :
    (s : System) (n : ℕ)
    → Tidy s
    → Tidy
        (record s { pumps = put s.pumps s.count (some new_pump); count = suc s.count; making = n })
unfolding new_pump lookup
makes-Tidy s n v = record {
  renews = λ r i e. ground arith;
  homes = λ k r i e. ground (arith, v.homes k r i);
}

registers-Tidy :
    (s : System) (k : ℕ) (p : Pump) (resp : AdmitResponse)
    → s.pumps k ≡ some p
    → same_text resp.lease_id "" ≡ false
    → Inv s
    → Tidy s
    → Tidy (record s {
      next = suc s.next;
      at = write s.at s.next (new_admission resp true);
      pumps = put s.pumps k (some (register resp.lease_id s.next p));
      home = put s.home s.next k;
    })
unfolding ensure_pump new_admission
registers-Tidy s k p resp is_pump slot v w = record {
  renews = λ r i e. ground (
    arith,
    lookup-register r resp.lease_id s.next (some p),
    eq_iff resp.lease_id r,
    v.fresh s.next,
    w.renews r i,
    w.homes (current s) r i,
  );
  homes = λ j r i e. ground (arith, lookup-register r resp.lease_id s.next (some p), w.homes j r i);
}

sends-Tidy :
    (s : System) (i n : ℕ) (a : Admission)
    → s.at i ≡ some a
    → Tidy s
    → Tidy (record (put_client (current s) (start_release i a (client_at (current s) s)) s) {
      entered = put s.entered i n;
      sent = put s.sent i (calls_after (held a) (s.sent i));
    })
unfolding start_release
sends-Tidy s i n a here_is v = record {
  renews = λ r j e.
      sends-Renews i a (client_at (current s) s) s.sent here_is v.renews r j (ground arith);
  homes = λ k r j e.
      ground
        (arith, lookup-deregister_if r a.lease_id a.heartbeat (s.pumps (current s)), v.homes k r j);
}

reclaims-Tidy :
    (s : System) (k : ℕ) (ids : List String)
    → Tidy s
    → Tidy (put_client k (reclaim_all ids (client_at k s)) s)
reclaims-Tidy s k ids v =
    let kept =
      reclaim_all-Kept k s.next s.home s.at ids (client_at k s)
        (record { same_next = refl; same_others = λ i apart. refl; listed = v.homes k }) in
    record {
      renews = elim (Bool-cases (k == current s)) [
        | inl same ↦ λ r i e.
            reclaim_all-Renews s.sent ids (client_at k s) (λ q j eq. ground (arith, v.renews q j)) r
              i (ground arith)
        | inr apart ↦
            λ r i e. ground (arith, v.renews r i, v.homes (current s) r i, kept.same_others i)
      ];
      homes = λ j r i e. ground (arith, kept.listed r i, kept.same_next, v.homes j r i);
    }

Step-Tidy : {s t : System} → Step s t → Inv s → Tidy s → Tidy t
Step-Tidy {s} (admits resp heartbeat plain) v w = admits-Tidy s (new_admission resp heartbeat) w
Step-Tidy (misses none_yet) v w = record { renews = w.renews; homes = w.homes }
Step-Tidy {s} (makes n under_way) v w = makes-Tidy s n w
Step-Tidy {s} (registers k p resp is_pump slot) v w = registers-Tidy s k p resp is_pump slot v w
Step-Tidy (enters i a here_is unmarked) v w = record { renews = w.renews; homes = w.homes }
Step-Tidy {s} (sends i n a here_is under_way) v w = sends-Tidy s i n a here_is w
Step-Tidy {s} (reclaims k ids) v w = reclaims-Tidy s k ids w

Reach-Tidy : {s t : System} → Reach s t → Inv s → Tidy s → Tidy t
Reach-Tidy here v w = w
Reach-Tidy (next_step reached st) v w = Step-Tidy st (Reach-Inv reached v) (Reach-Tidy reached v w)

IsStart-Tidy : {s : System} → IsStart s → Tidy s
unfolding lookup
IsStart-Tidy {s} v = record {
  renews = λ r i e. ground (arith, v.no_pumps (current s));
  homes = λ k r i e. ground (arith, v.no_pumps k);
}

-- In every interleaving, each lease that the pump which the client holds would renew is that of an
-- admission which was made with heartbeats and holds its slot, which the server has not reclaimed, and for
-- which no `Release` call has been made. Of a pump that is no longer the client's, since another thread of the
-- first admissions has set `_pump` after it, nothing is said.
pub pump_renews_held :
    {s t : System} (k : String) (i : ℕ)
    → IsStart s
    → Reach s t
    → lookup k (open_of (t.pumps (current t))) ≡ some i
    → IsRenewable k (t.sent i) (t.at i)
pump_renews_held k i start reached found =
    (Reach-Tidy reached (IsStart-Inv start) (IsStart-Tidy start)).renews k i found
