-- ===== src/Ratelimit/Services.antt =====
-- The service backends as what ratelimit.py binds to a policy: `ServiceBackend.check`
-- (src/throttlekit/service_backend.py) and `AsyncServiceBackend.check` (service_backend_async.py).
use throttlekit_py.Base.{String, ℤ, true, false, ◌⊎◌, inl, inr, ◌≡◌, refl, ◌∙◌}
use throttlekit_py.Decision.{Decision}
use throttlekit_py.Errors.{Result, ok}
use throttlekit_py.Grpc.{Reply, reply, failed, broke}
use throttlekit_py.Service.{RateLimiterStub, DecisionMessage, decision_of, decoded, check}
use throttlekit_py.ServiceAsync.{resumed, check as async_check}
use throttlekit_py.Ratelimit.{
  ◌▸◌, decided, awaitable, PolicyBackend, coroutine, bind_policy, resolve_sync, resolve_async,
}
use throttlekit_py.Ratelimit.Doors.{bind_policy_resolves, sync_resolves}

-- What either backend makes of the reply to `Check`.
abbrev pub answer_to : {W : Type 0} → Reply DecisionMessage × W → Result Decision × W
answer_to out = decoded decision_of out

resumed-decoded :
    {W : Type 0} (out : Reply DecisionMessage × W)
    → resumed decision_of out ≡ decoded decision_of out
unfolding resumed decoded
resumed-decoded (reply d, w) = refl
resumed-decoded (failed e, w) = refl
resumed-decoded (broke e, w) = refl

module _ {W : Type 0} (stub : RateLimiterStub W) where
  -- `ServiceBackend`, by its `check`.
  unfoldable pub service_policy : PolicyBackend W
  service_policy = record {
    is_async = false;
    check = λ policy key cost w. check stub policy key cost w ▸ (λ d w'. (ok (decided d), w'));
  }

  -- `AsyncServiceBackend`, by its `check`, which is a coroutine function.
  unfoldable pub async_service_policy : PolicyBackend W
  async_service_policy = record {
    is_async = true;
    check = λ policy key cost w. (ok (awaitable (coroutine (async_check stub policy key cost))), w);
  }

  pub resolves_service :
      (backend : PolicyBackend W) (policy key : String) (cost : ℤ) (w : W)
      → (backend ≡ service_policy) ⊎ (backend ≡ async_service_policy)
      → resolve_async (bind_policy backend policy) key cost w
        ≡ answer_to (stub.check (record { policy = policy; key = key; cost = cost }) w)
  unfolding service_policy async_service_policy check async_check
  resolves_service backend policy key cost w (inl is) = rw is (
      bind_policy_resolves service_policy (check stub) policy key cost w
        (inl (refl, λ p k c w'. refl)))
  resolves_service backend policy key cost w (inr is) = rw is (
      bind_policy_resolves async_service_policy (async_check stub) policy key cost w
        (inr (refl, λ p k c w'. refl))
      ∙ resumed-decoded (stub.check (record { policy = policy; key = key; cost = cost }) w))

  pub resolves_service_sync :
      (policy key : String) (cost : ℤ) (w : W)
      → resolve_sync (bind_policy service_policy policy) key cost w
        ≡ answer_to (stub.check (record { policy = policy; key = key; cost = cost }) w)
  unfolding service_policy check
  resolves_service_sync policy key cost w =
      sync_resolves service_policy (check stub) policy key cost w (refl, λ p k c w'. refl)
