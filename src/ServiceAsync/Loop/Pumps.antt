-- ===== src/ServiceAsync/Loop/Pumps.antt =====
-- What the operations of src/throttlekit/service_backend_async.py do to the pump: they register and
-- deregister leases.
use throttlekit_py.Base.{
  ℕ, String, same_text, lookup, Bool, true, false, not, ◌&&◌, Bool-cases, Option, none, some, List,
  [], ◌∷◌, ◌≡◌, refl, inl, inr,
}
use mathlib.Core.Path.{subst}
use throttlekit_py.Service.{AdmitResponse}
use throttlekit_py.ServiceAsync.Admission.{
  AsyncAdmission, held, AsyncClient, AsyncPump, register, deregister, deregister_if, ensure_pump,
  admitted, start_release, mark_at, pop_and_mark, reclaim_from, reclaim, reclaim_all, new_admission,
}

-- A property of the pump that registering and deregistering keep is kept by every operation.
module _ (P : Option AsyncPump → Type 0)
    (registered : (id : String) (n : ℕ) (o : Option AsyncPump)
      → P o
      → P (some (register id n (ensure_pump o))))
    (deregistered : (id : String) (p : AsyncPump) → P (some p) → P (some (deregister id p))) where
  pub admitted_keeps :
      (resp : AdmitResponse) (heartbeat : Bool) (c : AsyncClient)
      → P c.pump
      → P (admitted resp heartbeat c).pump
  unfolding admitted new_admission
  admitted_keeps resp heartbeat c v =
      elim (Bool-cases (heartbeat && not (same_text resp.lease_id ""))) [
        | inl e ↦ rw e (registered resp.lease_id c.next c.pump v)
        | inr e ↦ rw e v
      ]

  deregister_if_keeps :
      (heartbeat : Bool) (id : String) (o : Option AsyncPump)
      → P o
      → P (deregister_if heartbeat id o)
  unfolding deregister_if
  deregister_if_keeps heartbeat id none v = v
  deregister_if_keeps true id (some p) v = deregistered id p v
  deregister_if_keeps false id (some p) v = v

  pub start_release_keeps :
      (i : ℕ) (a : AsyncAdmission) (c : AsyncClient) → P c.pump → P (start_release i a c).1.pump
  unfolding start_release
  start_release_keeps i a c v = elim (Bool-cases a.released) [
    | inl e ↦ rw e v
    | inr e ↦ elim (Bool-cases (held a)) [
      | inl h ↦ simp (e, h) (deregister_if_keeps a.heartbeat a.lease_id c.pump v)
      | inr h ↦ simp (e, h) v
    ]
  ]

  mark_at_keeps :
      (i : ℕ) (o : Option AsyncAdmission) (c : AsyncClient) → P c.pump → P (mark_at i o c).pump
  unfolding mark_at
  mark_at_keeps i none c v = v
  mark_at_keeps i (some a) c v = v

  pop_and_mark_keeps :
      (rid : String) (p : AsyncPump) (o : Option ℕ) (c : AsyncClient)
      → c.pump ≡ some p
      → P c.pump
      → P (pop_and_mark rid p o c).pump
  unfolding pop_and_mark
  pop_and_mark_keeps rid p none c e v = v
  pop_and_mark_keeps rid p (some i) c e v =
      mark_at_keeps i (c.at i) _ (deregistered rid p (subst P e v))

  reclaim_from_keeps :
      (rid : String) (o : Option AsyncPump) (c : AsyncClient)
      → c.pump ≡ o
      → P c.pump
      → P (reclaim_from rid o c).pump
  unfolding reclaim_from
  reclaim_from_keeps rid none c e v = v
  reclaim_from_keeps rid (some p) c e v = pop_and_mark_keeps rid p (lookup rid p.open_leases) c e v

  pub reclaim_all_keeps :
      (rids : List String) (c : AsyncClient) → P c.pump → P (reclaim_all rids c).pump
  unfolding reclaim_all reclaim
  reclaim_all_keeps [] c v = v
  reclaim_all_keeps (rid ∷ rids) c v =
      reclaim_all_keeps rids (reclaim rid c) (reclaim_from_keeps rid c.pump c refl v)
