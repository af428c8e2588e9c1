-- ===== src/ServiceAsync/Calls/Blocks.antt =====
-- What leaving an `async with` block of an admission does (src/throttlekit/service_backend_async.py).
use throttlekit_py.Base.{ℕ, Bool, true, false, Bool-cases, inl, inr, ◌≡◌, refl}
use throttlekit_py.Errors.{ok}
use throttlekit_py.Grpc.{RpcError, failed}
use throttlekit_py.Service.{RateLimiterStub}
use throttlekit_py.ServiceAsync.Admission.{AsyncAdmission, held, AsyncClient, start_release}
use throttlekit_py.ServiceAsync.Calls.{release_resumed, after_start, release, aexit}

module _ {W : Type 0} (stub : RateLimiterStub W) (others : AsyncClient → AsyncClient) where
  -- Leaving an `async with` block of an admission that holds its slot marks it released before the await,
  -- makes one `Release` call for its lease, dropped exactly when the block raised, and swallows its
  -- RpcError; what other tasks have done meanwhile stays. Leaving that of an admission without a slot, or
  -- of one that is released or reclaimed already, makes no call and does not wait.
  aexit_releases :
      (raised : Bool) (i : ℕ) (a : AsyncAdmission) (c : AsyncClient) (w : W)
      → let call = stub.release (record { lease_id = a.lease_id; dropped = raised }) w in
        (a.released ≡ false
          → held a ≡ true
          → aexit stub others raised i a c w
            ≡ ((release_resumed call).0, others (start_release i a c).1, (release_resumed call).1))
        × ((e : RpcError) (w' : W) → call ≡ (failed e, w') → release_resumed call ≡ (ok tt, w'))
        × (held a ≡ false → aexit stub others raised i a c w ≡ (ok tt, (start_release i a c).1, w))
        × (a.released ≡ true → aexit stub others raised i a c w ≡ (ok tt, c, w))
  unfolding aexit release after_start start_release release_resumed
  aexit_releases raised i a c w = (
    λ kept slot. rw (kept, slot) refl,
    λ e w' h. rw h refl,
    λ slotless. elim (Bool-cases a.released) [
      | inl gone ↦ rw gone refl
      | inr kept ↦ rw (kept, slotless) refl
    ],
    λ gone. rw gone refl,
  )
