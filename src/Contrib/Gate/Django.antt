-- ===== src/Contrib/Gate/Django.antt =====
-- When the decorator of src/throttlekit/contrib/django.py calls the view.
use throttlekit_py.Base.{
  String, ℤ, Dict, Bool, true, false, not, ◌&&◌, ◌||◌, Bool-cases, Option, none, some, ◌≡◌, refl,
  ap, ◌∙◌, arith, inl, inr, if◌then◌else◌,
}
use throttlekit_py.Decision.{Decision}
use throttlekit_py.Errors.{Exn, Result, ok, err}
use throttlekit_py.Headers.{decision_headers, triples, reset_delta, retry_header}
use throttlekit_py.Ratelimit.{◌▸◌, resolve_sync}
use throttlekit_py.Contrib.{Asked, answered, unavailable, raised, asked, fails_closed}
use throttlekit_py.Contrib.Gate.{
  lets_through, asked_through, through_asked, Gate, shown_decision, asked_decision, shown_asked,
}
use throttlekit_py.Contrib.Django.{
  Request, ViewEnd, responds, ratelimited, raises, set_headers, stamp_with, View, RateLimit,
  after_view, after_check, limited, process_exception, or_ietf, respond_with,
}

abbrev pub is_answer : Result Decision → Bool
is_answer (ok d) = true
is_answer (err e) = false

abbrev asked_answer : Asked → Bool
asked_answer (answered d) = true
asked_answer unavailable = false
asked_answer (raised e) = false

answer_asked : (r : Result Decision) → is_answer r ≡ asked_answer (asked r)
unfolding asked
answer_asked r = ground arith

denied_taken :
    {A : Type 0} (x y : A) (allowed block : Bool)
    → allowed ≡ false
    → block ≡ true
    → (if not allowed && block then x else y) ≡ x
denied_taken x y allowed block denied blocks = rw (denied, blocks) refl

module _ {R Resp W : Type 0} (b : RateLimit R Resp W) where
  -- What becomes of how the view has ended: an exception stays, and so does a response if no decision was
  -- made or headers are not asked for; otherwise the decision's headers are set on the response, unless they
  -- cannot be made.
  abbrev Passed : Option Decision → ViewEnd Resp × W → ViewEnd Resp × W → Type 0
  Passed d (ratelimited other, w) out = out ≡ (ratelimited other, w)
  Passed d (raises e, w) out = out ≡ (raises e, w)
  Passed none (responds resp, w) out = out ≡ (responds resp, w)
  Passed (some d) (responds resp, w) out =
      (b.stamp_headers ≡ false → out ≡ (responds resp, w))
      × ((headers : Dict String)
          → b.stamp_headers ≡ true
          → decision_headers d b.style (b.clock w) ≡ ok headers
          → out ≡ (responds (set_headers b headers resp), w))
      × ((e : Exn)
          → b.stamp_headers ≡ true
          → decision_headers d b.style (b.clock w) ≡ err e
          → out ≡ (raises e, w))

  -- The view is called once, after the check and on the request with its decision, and what it responds or
  -- raises is passed on.
  abbrev pub RunsView : View R Resp W → Request R → Option Decision → W → ViewEnd Resp × W → Type 0
  RunsView view req d w out = Passed d (view (record req { throttlekit_decision = some d }) w) out

  after_view-Passed :
      (d : Decision) (end : ViewEnd Resp × W) → Passed (some d) end (after_view b d end)
  unfolding after_view stamp_with
  after_view-Passed d (ratelimited other, w) = refl
  after_view-Passed d (raises e, w) = refl
  after_view-Passed d (responds resp, w) = (
    λ plain. rw plain refl,
    λ headers stamps made. rw (stamps, made) refl,
    λ e stamps fails. rw (stamps, fails) refl,
  )

  kept_end : (end : ViewEnd Resp × W) → Passed none end end
  kept_end (ratelimited other, w) = refl
  kept_end (raises e, w) = refl
  kept_end (responds resp, w) = refl

  view_gate :
      (view view' : View R Resp W) (req : Request R) (a : Asked) (w : W)
      → Gate
          (not b.block && asked_answer a || asked_through (fails_closed b.on_unavailable) a)
          (RunsView view req (asked_decision a) w (after_check b view req (a, w)))
          (after_check b view req (a, w) ≡ after_check b view' req (a, w))
  unfolding after_check decision_headers triples reset_delta retry_header
  view_gate view view' req (answered d) w = elim (Bool-cases d.allowed) [
    | inl allowed ↦ elim (Bool-cases b.block) [
      | inl blocks ↦ rw (allowed, blocks) (after_view-Passed d _)
      | inr asks ↦ rw (allowed, asks) (after_view-Passed d _)
    ]
    | inr denied ↦ elim (Bool-cases b.block) [
      | inl blocks ↦ rw (denied, blocks) refl
      | inr asks ↦ rw (denied, asks) (after_view-Passed d _)
    ]
  ]
  view_gate view view' req unavailable w = elim (Bool-cases (fails_closed b.on_unavailable)) [
    | inl closed ↦ elim (Bool-cases b.block) [
      | inl blocks ↦ rw (closed, blocks) refl
      | inr asks ↦ rw (closed, asks) refl
    ]
    | inr open_still ↦ elim (Bool-cases b.block) [
      | inl blocks ↦ rw (open_still, blocks) (kept_end _)
      | inr asks ↦ rw (open_still, asks) (kept_end _)
    ]
  ]
  view_gate view view' req (raised e) w = elim (Bool-cases b.block) [
    | inl blocks ↦ rw blocks refl
    | inr asks ↦ rw asks refl
  ]

  -- The view runs exactly if the checker allows the request, or answers at all where block is False,
  -- or is out of reach while the decorator fails open; it finds the decision on the request, or None
  -- in an outage; what it raises is passed on, and so is its response, with the decision's headers set if
  -- they are asked for and can be made. Otherwise what the decorated view does does not depend on the view.
  pub django_gate :
      (view view' : View R Resp W) (req : Request R) (w : W)
      → let (r, w') = b.key req.request w ▸ (λ k. resolve_sync b.checker k b.cost) in
        Gate
          (not b.block && is_answer r || lets_through (fails_closed b.on_unavailable) r)
          (RunsView view req (shown_decision r) w' (limited b view req w))
          (limited b view req w ≡ limited b view' req w)
  unfolding limited
  django_gate view view' req w =
      let (r, w') = b.key req.request w ▸ (λ k. resolve_sync b.checker k b.cost) in
      rw (through_asked (fails_closed b.on_unavailable) r, shown_asked r, answer_asked r)
        (view_gate view view' req (asked r) w')

  -- Where block is True, a denial of the checker leaves the decorated view as an exception of which the
  -- middleware makes a response of status 429 with the headers of the decision.
  django_denial_429 :
      (view : View R Resp W) (req : Request R) (w w' : W) (d : Decision) (style : Option String)
      (now : ℤ) (headers : Dict String)
      → b.block ≡ true
      → (b.key req.request w ▸ (λ k. resolve_sync b.checker k b.cost)) ≡ (ok d, w')
      → d.allowed ≡ false
      → decision_headers d (or_ietf style) now ≡ ok headers
      → process_exception b.http_response style now (limited b view req w).0
        ≡ ok (some (b.http_response "rate limit exceeded" 429 headers))
  unfolding limited after_check asked process_exception
  django_denial_429 view req w w' d style now headers blocks answer denied shown = rw answer (
      ap (λ (out : ViewEnd Resp × W). process_exception b.http_response style now out.0)
        (denied_taken _ _ d.allowed b.block denied blocks)
      ∙ ap (respond_with b.http_response) shown)
