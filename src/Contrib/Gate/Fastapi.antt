-- ===== src/Contrib/Gate/Fastapi.antt =====
-- When the dependency of src/throttlekit/contrib/fastapi.py lets the route run.
use throttlekit_py.Base.{true, Bool-cases, ◌≡◌, inl, inr}
use throttlekit_py.Headers.{decision_headers, known_style}
use throttlekit_py.Ratelimit.{◌▸◌, resolve_async}
use throttlekit_py.Contrib.{Asked, answered, unavailable, raised, asked, fails_closed}
use throttlekit_py.Contrib.Gate.{lets_through, asked_through, through_asked, Gate}
use throttlekit_py.Contrib.Fastapi.{
  DependencyEnd, returns, http_exception, raises, RateLimit, answer_of, dependency,
}

module _ {R H W : Type 0} (b : RateLimit R H W) where
  abbrev pub Returns : DependencyEnd H → Type 0
  Returns (returns h) = Unit
  Returns (http_exception status detail headers) = ⊥
  Returns (raises e) = ⊥

  answer_gate :
      (h : H) (a : Asked) (w : W)
      → known_style b.style ≡ true
      → Gate
          (asked_through (fails_closed b.on_unavailable) a)
          (Returns (answer_of b h a w))
          (¬ Returns (answer_of b h a w))
  unfolding answer_of decision_headers
  answer_gate h (answered d) w known = elim (Bool-cases d.allowed) [
    | inl allowed ↦ elim (Bool-cases b.stamp_headers) [
      | inl stamped ↦ rw (allowed, stamped, known) tt
      | inr plain ↦ rw (allowed, plain) tt
    ]
    | inr denied ↦ rw (denied, known) (λ x. x)
  ]
  answer_gate h unavailable w known = elim (Bool-cases (fails_closed b.on_unavailable)) [
    | inl closed ↦ rw closed (λ x. x)
    | inr open_still ↦ rw open_still tt
  ]
  answer_gate h (raised e) w known = λ x. x

  -- In a known style, the dependency returns, so that the route runs, exactly if the checker allows the
  -- request, or is out of reach while the dependency fails open; otherwise it raises.
  pub fastapi_gate :
      (request : R) (h : H) (w : W)
      → known_style b.style ≡ true
      → let r = (b.key request w ▸ (λ k. resolve_async b.checker k b.cost)).0 in
        Gate
          (lets_through (fails_closed b.on_unavailable) r)
          (Returns (dependency b request h w).0)
          (¬ Returns (dependency b request h w).0)
  unfolding dependency
  fastapi_gate request h w known =
      let (r, w') = b.key request w ▸ (λ k. resolve_async b.checker k b.cost) in
      rw (through_asked (fails_closed b.on_unavailable) r) (answer_gate h (asked r) w' known)
