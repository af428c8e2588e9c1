-- ===== src/Service/Calls.antt =====
-- The calls of src/throttlekit/service_backend.py, one at a time.
use throttlekit_py.Base.{ℕ, same_text, lookup, Bool, true, false, some, ◌≡◌, refl, arith, eq_refl}
use throttlekit_py.Errors.{ok}
use throttlekit_py.Grpc.{RpcError, Reply, reply, failed, broke, by_code, map_rpc_error}
use throttlekit_py.Service.{AdmitResponse, RateLimiterStub, by_status, mapped}
use throttlekit_py.Service.Admission.{
  Admission, held, Client, new_admission, admitted, start_release, swallow, release, exit,
}
use throttlekit_py.Service.Lifecycle.Leases.{open_of, lookup-register}

-- The service door and the doors of `_grpc.py` raise the same exception for every failed RPC.
mapped-eq-map_rpc_error : (e : RpcError) → mapped e ≡ map_rpc_error e
unfolding mapped map_rpc_error by_code by_status
mapped-eq-map_rpc_error e = ground arith

pub swallow_world : {W : Type 0} (out : Reply (Unit {0}) × W) → (swallow out).1 ≡ out.1
unfolding swallow
swallow_world (reply u, w) = refl
swallow_world (failed e, w) = refl
swallow_world (broke e, w) = refl

module _ {W : Type 0} (stub : RateLimiterStub W) where
  release_marks :
      (d : Bool) (i : ℕ) (a a' : Admission) (c : Client) (w : W)
      → c.at i ≡ some a
      → (release stub d i a c w).1.at i ≡ some a'
      → a'.released ≡ true
  unfolding release start_release
  release_marks d i a a' c w here_is e = ground arith

  -- A second release of an admission returns without a call, and changes nothing, however the first
  -- one and the second were asked and whatever became of the first one's RPC.
  release_again :
      (d d' : Bool) (i : ℕ) (a a' : Admission) (c : Client) (w : W)
      → c.at i ≡ some a
      → let (r, c', w') = release stub d i a c w in
        c'.at i ≡ some a' → release stub d' i a' c' w' ≡ (ok tt, c', w')
  unfolding release
  release_again d d' i a a' c w here_is e = rw (release_marks d i a a' c w here_is e)

  -- Leaving a `with` block of an admission that holds its slot makes one `Release` call for its lease,
  -- dropped exactly when the block raised, and swallows its RpcError; leaving that of an admission
  -- without a slot, or of one that is released or reclaimed already, makes none.
  pub exit_releases :
      (raised : Bool) (i : ℕ) (a : Admission) (c : Client) (w : W)
      → let call = stub.release (record { lease_id = a.lease_id; dropped = raised }) w in
        (a.released ≡ false
          → held a ≡ true
          → exit stub raised i a c w ≡ ((swallow call).0, start_release i a c, call.1))
        × ((e : RpcError) (w' : W) → call ≡ (failed e, w') → (swallow call).0 ≡ ok tt)
        × (held a ≡ false → (exit stub raised i a c w).0 ≡ ok tt)
        × (held a ≡ false → (exit stub raised i a c w).2 ≡ w)
        × (a.released ≡ true → exit stub raised i a c w ≡ (ok tt, c, w))
  unfolding exit release swallow
  exit_releases raised i a c w = (
    λ kept slot.
        rw (kept, slot)
          (rw
            (swallow_world (stub.release (record { lease_id = a.lease_id; dropped = raised }) w))),
    λ e w' h. rw h,
    λ slotless. ground arith,
    λ slotless. ground arith,
    λ gone. rw gone,
  )

-- A new admission with heartbeats and a slot is what the pump will renew under its lease; without
-- heartbeats or without a slot the pump stays as it was.
admitted_registers :
    (resp : AdmitResponse) (c : Client)
    → (same_text resp.lease_id "" ≡ false
        → (lookup resp.lease_id (open_of (admitted resp true c).pump) ≡ some c.next)
          × ((admitted resp true c).at c.next ≡ some (new_admission resp true)))
      × ((admitted resp false c).pump ≡ c.pump)
      × (same_text resp.lease_id "" ≡ true → (admitted resp true c).pump ≡ c.pump)
unfolding admitted new_admission
admitted_registers resp c = (
  λ slot.
      rw slot
        (rw (lookup-register resp.lease_id resp.lease_id c.next c.pump) (rw eq_refl), ground arith),
  refl,
  λ slotless. rw slotless,
)
