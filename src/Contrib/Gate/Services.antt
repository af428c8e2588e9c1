-- ===== src/Contrib/Gate/Services.antt =====
-- The adapters of src/throttlekit/contrib in front of the service backends, from the server's reply to the
-- application.
use throttlekit_py.Base.{
  String, same_text, Bool, true, false, not, ◌&&◌, ◌||◌, ◌⊎◌, Option, none, some, ◌≡◌, refl, arith,
}
use throttlekit_py.Decision.{Decision}
use throttlekit_py.Errors.{ok, err}
use throttlekit_py.Grpc.{StatusCode, Reply, reply, failed, broke}
use throttlekit_py.Headers.{known_style}
use throttlekit_py.Service.{
  RateLimiterStub, DecisionMessage, decision_of, decoded, mapped, by_status,
}
use throttlekit_py.Ratelimit.{◌▸◌, PolicyBackend, bind_policy, resolve_sync}
use throttlekit_py.Ratelimit.Services.{
  service_policy, async_service_policy, answer_to, resolves_service, resolves_service_sync,
}
use throttlekit_py.Contrib.{fails_closed}
use throttlekit_py.Contrib.Gate.{lets_through, Gate, shown_decision}
use throttlekit_py.Contrib.Starlette as Asgi
use throttlekit_py.Contrib.Gate.Starlette.{asgi_answer, RunsApp, starlette_gate}
use throttlekit_py.Contrib.Django.{Request, View, RateLimit, limited}
use throttlekit_py.Contrib.Gate.Django.{RunsView, is_answer, django_gate}

abbrev is_unavailable : StatusCode → Bool
is_unavailable StatusCode.unavailable = true
is_unavailable code = false

-- What a reply to `Check` lets through: an allow, and the status UNAVAILABLE where the adapter fails
-- open. A stub that raises something else lets through what that exception does.
abbrev pub reply_passes : Bool → Reply DecisionMessage → Bool
reply_passes closed (reply d) = d.allowed
reply_passes closed (failed e) = is_unavailable e.code && not closed
reply_passes closed (broke e) = lets_through closed (err e)

through_reply :
    {W : Type 0} (closed : Bool) (out : Reply DecisionMessage × W)
    → lets_through closed (decoded decision_of out).0 ≡ reply_passes closed out.0
unfolding decoded mapped by_status decision_of
through_reply closed (reply d, w) = refl
through_reply closed (failed e, w) = ground arith
through_reply closed (broke e, w) = refl

same_world : {W : Type 0} (out : Reply DecisionMessage × W) → (decoded decision_of out).1 ≡ out.1
unfolding decoded
same_world (reply d, w) = refl
same_world (failed e, w) = refl
same_world (broke e, w) = refl

module _ {P W : Type 0} (stub : RateLimiterStub W) (m : Asgi.Middleware P W) where
  -- In front of a service backend of either kind, bound to a policy, the middleware calls the application
  -- for an HTTP request exactly if the server's reply to one `Check` of the policy for the request's key
  -- is an allow, or the RPC fails with UNAVAILABLE while the middleware fails open; otherwise what it
  -- does does not depend on the application. The style is a known one, and the key function does not raise.
  pub starlette_service_gate :
      (backend : PolicyBackend W) (policy key : String) (scope : Asgi.Scope) (send : Asgi.Send P W)
      (app' : Asgi.App P W) (w w' : W)
      → (backend ≡ service_policy stub) ⊎ (backend ≡ async_service_policy stub)
      → m.checker ≡ bind_policy backend policy
      → m.key scope w ≡ (ok key, w')
      → same_text scope.type "http" ≡ true
      → known_style m.style ≡ true
      → let (answer, w'') = stub.check (record { policy = policy; key = key; cost = m.cost }) w' in
        Gate
          (reply_passes (fails_closed m.on_unavailable) answer)
          (RunsApp m w'' (Asgi.middleware m scope send w))
          (Asgi.middleware m scope send w ≡ Asgi.middleware (record m { app = app' }) scope send w)
  starlette_service_gate backend policy key scope send app' w w' is_service bound keyed http known =
      let out = stub.check (record { policy = policy; key = key; cost = m.cost }) w' in
      let answered : asgi_answer m scope w ≡ answer_to out =
        rw (keyed, bound) (resolves_service stub backend policy key m.cost w' is_service) in
      let gate = starlette_gate m scope send app' w http known in
      rw (through_reply (fails_closed m.on_unavailable) out, same_world out) at
        (rw answered at gate)

-- Whether the server has answered, and the decision that the view then finds.
abbrev pub is_reply : Reply DecisionMessage → Bool
is_reply (reply d) = true
is_reply (failed e) = false
is_reply (broke e) = false

abbrev pub shown_reply : Reply DecisionMessage → Option Decision
shown_reply (reply d) = some (decision_of d)
shown_reply (failed e) = none
shown_reply (broke e) = none

answers-reply :
    {W : Type 0} (out : Reply DecisionMessage × W)
    → is_answer (decoded decision_of out).0 ≡ is_reply out.0
unfolding decoded
answers-reply (reply d, w) = refl
answers-reply (failed e, w) = refl
answers-reply (broke e, w) = refl

shown-reply :
    {W : Type 0} (out : Reply DecisionMessage × W)
    → shown_decision (decoded decision_of out).0 ≡ shown_reply out.0
unfolding decoded
shown-reply (reply d, w) = refl
shown-reply (failed e, w) = refl
shown-reply (broke e, w) = refl

module _ {R Resp W : Type 0} (stub : RateLimiterStub W) (b : RateLimit R Resp W) where
  -- In front of a `ServiceBackend` bound to a policy, the view runs exactly if the server's reply to one
  -- `Check` of the policy for the request's key is an allow, or is any decision where block is False, or
  -- the RPC fails with UNAVAILABLE while the decorator fails open; it finds the server's decision on the
  -- request, or None in an outage. Otherwise what the decorated view does does not depend on the view. The
  -- key function does not raise.
  django_service_gate :
      (policy key : String) (view view' : View R Resp W) (req : Request R) (w w' : W)
      → b.checker ≡ bind_policy (service_policy stub) policy
      → b.key req.request w ≡ (ok key, w')
      → let (answer, w'') = stub.check (record { policy = policy; key = key; cost = b.cost }) w' in
        Gate
          (not b.block && is_reply answer || reply_passes (fails_closed b.on_unavailable) answer)
          (RunsView b view req (shown_reply answer) w'' (limited b view req w))
          (limited b view req w ≡ limited b view' req w)
  django_service_gate policy key view view' req w w' bound keyed =
      let out = stub.check (record { policy = policy; key = key; cost = b.cost }) w' in
      let answered : (b.key req.request w ▸ (λ k. resolve_sync b.checker k b.cost))
          ≡ answer_to out =
        rw (keyed, bound) (resolves_service_sync stub policy key b.cost w') in
      let gate = django_gate b view view' req w in
      rw
        (
          through_reply (fails_closed b.on_unavailable) out,
          answers-reply out,
          shown-reply out,
          same_world out,
        )
        at (rw answered at gate)
