-- ===== src/ServiceAsync/Calls.antt =====
-- src/throttlekit/service_backend_async.py: the coroutines `admit`, `release` and `__aexit__` with their
-- RPCs. What other tasks do to the client while one awaits is the argument `others`.
pub mod Blocks
use throttlekit_py.Base.{ℕ, String, ℤ, Bool, true, false}
use throttlekit_py.Errors.{Result, ok, err}
use throttlekit_py.Grpc.{Reply, reply, failed, broke}
use throttlekit_py.Service.{RateLimiterStub, AdmitResponse, mapped}
use throttlekit_py.ServiceAsync.Admission.{AsyncAdmission, AsyncClient, admitted, start_release}

-- `admit` when it resumes: the number of the new admission.
unfoldable pub admit_resumed :
    {W : Type 0} → Bool → AsyncClient → Reply AdmitResponse × W → Result ℕ × AsyncClient × W
unfolding admitted
admit_resumed heartbeat c (reply resp, w) = (ok c.next, admitted resp heartbeat c, w)
admit_resumed heartbeat c (failed e, w) = (err (mapped e), c, w)
admit_resumed heartbeat c (broke e, w) = (err e, c, w)

-- `_release_lease` when it resumes: an `RpcError` is swallowed.
unfoldable pub release_resumed : {W : Type 0} → Reply (Unit {0}) × W → Result (Unit {0}) × W
release_resumed (reply u, w) = (ok tt, w)
release_resumed (failed e, w) = (ok tt, w)
release_resumed (broke e, w) = (err e, w)

module _ {W : Type 0} (stub : RateLimiterStub W) (others : AsyncClient → AsyncClient) where
  unfoldable pub admit :
      String → String → ℤ → ℤ → ℤ → Bool → AsyncClient → W → Result ℕ × AsyncClient × W
  unfolding admit_resumed
  admit policy key cost hold value heartbeat c w = admit_resumed heartbeat (others c) (
      stub.admit (record { policy = policy; key = key; cost = cost; hold = hold; value = value }) w)

  -- `release` of admission `i` from its first await on, if it has one.
  unfoldable pub after_start :
      Bool → AsyncAdmission → Bool × AsyncClient → W → Result (Unit {0}) × AsyncClient × W
  unfolding release_resumed
  after_start dropped a (false, c) w = (ok tt, c, w)
  after_start dropped a (true, c) w =
      let (r, w') =
        release_resumed (stub.release (record { lease_id = a.lease_id; dropped = dropped }) w) in
      (r, others c, w')

  unfoldable pub release :
      Bool → ℕ → AsyncAdmission → AsyncClient → W → Result (Unit {0}) × AsyncClient × W
  unfolding after_start
  release dropped i a c w = after_start dropped a (start_release i a c) w

  -- `__aexit__`: whether the block raised.
  unfoldable pub aexit :
      Bool → ℕ → AsyncAdmission → AsyncClient → W → Result (Unit {0}) × AsyncClient × W
  unfolding release
  aexit raised i a c w = release raised i a c w
