-- ===== src/Contrib/Gate/Flask.antt =====
-- When the extension of src/throttlekit/contrib/flask.py calls the view.
use throttlekit_py.Base.{
  String, Dict, true, false, Bool-cases, Option, none, some, ◌≡◌, refl, inl, inr,
}
use throttlekit_py.Decision.{Decision}
use throttlekit_py.Errors.{Exn, Result, ok, err}
use throttlekit_py.Headers.{decision_headers, triples, reset_delta, retry_header}
use throttlekit_py.Ratelimit.{◌▸◌, Checker, resolve_sync}
use throttlekit_py.Contrib.{Asked, answered, unavailable, raised, asked, fails_closed}
use throttlekit_py.Contrib.Gate.{
  lets_through, asked_through, through_asked, Gate, shown_decision, asked_decision, shown_asked,
}
use throttlekit_py.Contrib.Flask.{
  ThrottleKit, Limit, given_or, Returned, response, as_is, resolved_checker, stamped, after_check,
  limited_by, limited,
}

module _ {V Resp W : Type 0} (tk : ThrottleKit V Resp W) where
  -- The decision's headers are on the response if they are asked for, unless they cannot be made.
  abbrev Stamped : Decision → Resp → W → Result (Returned V Resp) × W → Type 0
  Stamped d resp w out =
      (tk.headers_enabled ≡ false → out ≡ (ok (response resp), w))
      × ((headers : Dict String)
          → tk.headers_enabled ≡ true
          → decision_headers d tk.style (tk.clock w) ≡ ok headers
          → out ≡ (ok (response (tk.update_headers headers resp)), w))
      × ((e : Exn)
          → tk.headers_enabled ≡ true
          → decision_headers d tk.style (tk.clock w) ≡ err e
          → out ≡ (err e, w))

  -- What becomes of what the view has returned or raised: an exception stays; what it returned stays if no
  -- decision was made, and otherwise `make_response` of it is stamped.
  abbrev Passed : Option Decision → Result V × W → Result (Returned V Resp) × W → Type 0
  Passed d (err e, w) out = out ≡ (err e, w)
  Passed none (ok v, w) out = out ≡ (ok (as_is v), w)
  Passed (some d) (ok v, w) out =
      ((e : Exn) → tk.make_response v ≡ err e → out ≡ (err e, w))
      × ((resp : Resp) → tk.make_response v ≡ ok resp → Stamped d resp w out)

  -- The view is called once, after the check, and what it returned or raised is passed on.
  abbrev pub RunsView :
      (W → Result V × W) → Option Decision → W → Result (Returned V Resp) × W → Type 0
  RunsView view d w out = Passed d (view w) out

  stamped-Stamped : (d : Decision) (resp : Resp) (w : W) → Stamped d resp w (stamped tk d resp w)
  unfolding stamped
  stamped-Stamped d resp w = (
    λ plain. rw plain refl,
    λ headers stamps made. rw (stamps, made) refl,
    λ e stamps fails. rw (stamps, fails) refl,
  )

  view-Passed :
      (d : Decision) (out : Result V × W)
      → Passed (some d) out (out ▸ (λ v w'. (tk.make_response v, w')) ▸ stamped tk d)
  view-Passed d (err e, w) = refl
  view-Passed d (ok v, w) =
      (λ e fails. rw fails refl, λ resp made. rw made (stamped-Stamped d resp w))

  as_is-Passed : (out : Result V × W) → Passed none out (out ▸ (λ v w'. (ok (as_is v), w')))
  as_is-Passed (err e, w) = refl
  as_is-Passed (ok v, w) = refl

  view_gate :
      (view view' : W → Result V × W) (a : Asked) (w : W)
      → Gate
          (asked_through (fails_closed tk.on_unavailable) a)
          (RunsView view (asked_decision a) w (after_check tk view (a, w)))
          (after_check tk view (a, w) ≡ after_check tk view' (a, w))
  unfolding after_check decision_headers triples reset_delta retry_header
  view_gate view view' (answered d) w = elim (Bool-cases d.allowed) [
    | inl allowed ↦ rw allowed (view-Passed d (view w))
    | inr denied ↦ rw denied refl
  ]
  view_gate view view' unavailable w = elim (Bool-cases (fails_closed tk.on_unavailable)) [
    | inl closed ↦ rw closed refl
    | inr open_still ↦ rw open_still (as_is-Passed (view w))
  ]
  view_gate view view' (raised e) w = refl

  -- With a checker for the route, the view runs exactly if the checker allows the request, or is out
  -- of reach while the extension fails open: what it raises is passed on, and so is what it returns, in an
  -- outage as it is, and after an allow as a response with the decision's headers if they are asked for and
  -- can be made. Otherwise what the wrapped view does does not depend on the view.
  pub flask_gate :
      (route : Limit W) (checker : Checker W) (view view' : W → Result V × W) (w : W)
      → resolved_checker tk route ≡ some checker
      → let (r, w') =
          given_or route.key tk.key w
          ▸ (λ k. resolve_sync checker k (given_or route.cost tk.default_cost)) in
        Gate
          (lets_through (fails_closed tk.on_unavailable) r)
          (RunsView view (shown_decision r) w' (limited tk route view w))
          (limited tk route view w ≡ limited tk route view' w)
  unfolding limited limited_by
  flask_gate route checker view view' w found =
      let (r, w') =
        given_or route.key tk.key w
        ▸ (λ k. resolve_sync checker k (given_or route.cost tk.default_cost)) in
      rw (found, through_asked (fails_closed tk.on_unavailable) r, shown_asked r)
        (view_gate view view' (asked r) w')
