-- ===== src/Service/Blocks/Leaving.antt =====
-- What a `with` block of an admission does on each of its ways (src/throttlekit/service_backend.py).
use throttlekit_py.Base.{ℕ, String, ℤ, Bool, true, false, some, ◌≡◌, refl, ap}
use throttlekit_py.Errors.{Result, err}
use throttlekit_py.Grpc.{RpcError, reply, failed}
use throttlekit_py.Service.{RateLimiterStub, AdmitResponse, mapped}
use throttlekit_py.Service.Admission.{
  Admission, held, Client, admitted, admit, start_release, swallow,
}
use throttlekit_py.Service.Calls.{exit_releases}
use throttlekit_py.Service.Blocks.{Action, raised, after_exit, exit_at, leave, entered, with_admit}

module _ {W A : Type 0} (stub : RateLimiterStub W) where
  leave_held :
      (i : ℕ) (a : Admission) (r : Result A) (c : Client) (w : W)
      → c.at i ≡ some a
      → a.released ≡ false
      → held a ≡ true
      → let call = stub.release (record { lease_id = a.lease_id; dropped = raised r }) w in
        leave stub i (r, c, w) ≡ (after_exit r (swallow call).0, start_release i a c, call.1)
  unfolding leave exit_at
  leave_held i a r c w there kept slot = rw there (
      ap (λ (out : Result (Unit {0}) × Client × W). (after_exit r out.0, out.1, out.2))
        ((exit_releases stub (raised r) i a c w).0 kept slot))

  leave_released :
      (i : ℕ) (a : Admission) (r : Result A) (c : Client) (w : W)
      → c.at i ≡ some a
      → a.released ≡ true
      → leave stub i (r, c, w) ≡ (r, c, w)
  unfolding leave exit_at
  leave_released i a r c w there gone = rw there (
      ap (λ (out : Result (Unit {0}) × Client × W). (after_exit r out.0, out.1, out.2))
        ((exit_releases stub (raised r) i a c w).4 gone))

  leave_slotless :
      (i : ℕ) (a : Admission) (r : Result A) (c : Client) (w : W)
      → c.at i ≡ some a
      → held a ≡ false
      → let out = leave stub i (r, c, w) in (out.0 ≡ r) × (out.2 ≡ w)
  unfolding leave exit_at
  leave_slotless i a r c w there slotless =
      let (name, calls, fine, still, gone) = exit_releases stub (raised r) i a c w in
      rw there (ap (after_exit r) (fine slotless), still slotless)

  -- A `with` block of an admission. If `Admit` fails, the body is not run and the failure is raised. If
  -- the body leaves the admission with its slot, one `Release` follows for that lease, dropped exactly
  -- when the body raised; what the body raised is raised on, unless that RPC ends in an exception other
  -- than an RpcError. If the admission has no slot, or has been released or reclaimed in the body, no call
  -- follows, and what the body returned or raised stays.
  pub with_admit_releases :
      (policy key : String) (cost hold value : ℤ) (heartbeat : Bool) (body : ℕ → Action W A)
      (c : Client) (w : W)
      → let (answer, w') =
          stub.admit
            (record { policy = policy; key = key; cost = cost; hold = hold; value = value })
            w in
        let out = with_admit stub policy key cost hold value heartbeat body c w in
        ((e : RpcError) → answer ≡ failed e → out ≡ (err (mapped e), c, w'))
        × ((resp : AdmitResponse) (a : Admission) (r : Result A) (c'' : Client) (w'' : W)
            → answer ≡ reply resp
            → body c.next (admitted resp heartbeat c) w' ≡ (r, c'', w'')
            → c''.at c.next ≡ some a
            → (a.released ≡ false
                → held a ≡ true
                → let call =
                    stub.release (record { lease_id = a.lease_id; dropped = raised r }) w'' in
                  out ≡ (after_exit r (swallow call).0, start_release c.next a c'', call.1))
              × (held a ≡ false → (out.0 ≡ r) × (out.2 ≡ w''))
              × (a.released ≡ true → out ≡ (r, c'', w'')))
  unfolding with_admit admit entered
  with_admit_releases policy key cost hold value heartbeat body c w = (
    λ e lost. rw lost refl,
    λ resp a r c'' w'' let_in ran there. (
      λ kept slot. rw (let_in, ran) (leave_held c.next a r c'' w'' there kept slot),
      λ slotless. rw (let_in, ran) (leave_slotless c.next a r c'' w'' there slotless),
      λ gone. rw (let_in, ran) (leave_released c.next a r c'' w'' there gone),
    ),
  )
