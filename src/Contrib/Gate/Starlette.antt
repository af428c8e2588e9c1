-- ===== src/Contrib/Gate/Starlette.antt =====
-- When the middleware of src/throttlekit/contrib/starlette.py calls the application, and what it stamps.
use throttlekit_py.Base.{
  String, same_text, Dict, true, Bool-cases, List, [], ◌∷◌, ◌++◌, map, ◌≡◌, refl, sym, ap, ◌∙◌, inl,
  inr, if◌then◌else◌,
}
use mathlib.Core.List.{append_assoc, append-nil}
use throttlekit_py.Decision.{Decision}
use throttlekit_py.Errors.{Result, ok}
use throttlekit_py.Headers.{decision_headers, known_style}
use throttlekit_py.Ratelimit.{◌▸◌, resolve_async}
use throttlekit_py.Contrib.{Asked, answered, unavailable, raised, asked, fails_closed}
use throttlekit_py.Contrib.Gate.{lets_through, asked_through, through_asked, Gate}
use throttlekit_py.Contrib.Starlette as Asgi

module _ {P W : Type 0} (m : Asgi.Middleware P W) where
  abbrev pub asgi_answer : Asgi.Scope → W → Result Decision × W
  asgi_answer scope w = m.key scope w ▸ (λ k. resolve_async m.checker k m.cost)

  -- The application is called once, after the check and with some function to send by, and what it
  -- does is all that follows.
  pub record RunsApp (w : W) (out : Result (Unit {0}) × W) : Type 0 where
    pub sends : Asgi.Send P W
    pub runs : out ≡ m.app sends w

  asgi_gate :
      (send : Asgi.Send P W) (app' : Asgi.App P W) (a : Asked) (w : W)
      → known_style m.style ≡ true
      → Gate
          (asked_through (fails_closed m.on_unavailable) a)
          (RunsApp w (Asgi.after_check m send (a, w)))
          (Asgi.after_check m send (a, w) ≡ Asgi.after_check (record m { app = app' }) send (a, w))
  unfolding Asgi.after_check decision_headers
  asgi_gate send app' (answered d) w known = elim (Bool-cases d.allowed) [
    | inl allowed ↦ rw (allowed, known) (record { sends = _; runs = refl })
    | inr denied ↦ rw (denied, known) refl
  ]
  asgi_gate send app' unavailable w known = elim (Bool-cases (fails_closed m.on_unavailable)) [
    | inl closed ↦ rw closed refl
    | inr open_still ↦ rw open_still (record { sends = send; runs = refl })
  ]
  asgi_gate send app' (raised e) w known = refl

  pub starlette_gate :
      (scope : Asgi.Scope) (send : Asgi.Send P W) (app' : Asgi.App P W) (w : W)
      → same_text scope.type "http" ≡ true
      → known_style m.style ≡ true
      → let (r, w') = asgi_answer scope w in
        Gate
          (lets_through (fails_closed m.on_unavailable) r)
          (RunsApp w' (Asgi.middleware m scope send w))
          (Asgi.middleware m scope send w ≡ Asgi.middleware (record m { app = app' }) scope send w)
  unfolding Asgi.middleware
  starlette_gate scope send app' w http known =
      let (r, w') = asgi_answer scope w in
      rw (http, through_asked (fails_closed m.on_unavailable) r)
        (asgi_gate send app' (asked r) w' known)

-- An application that sends the messages in turn, up to an exception.
abbrev pub sends_all : {P W : Type 0} → List (Asgi.Message P) → Asgi.App P W
sends_all [] send w = (ok tt, w)
sends_all (message ∷ rest) send w = send message w ▸ (λ _. sends_all rest send)

-- A server that keeps what it is sent.
abbrev pub keep : {P : Type 0} → Asgi.Send P (List (Asgi.Message P))
keep message log = (ok tt, log ++ (message ∷ []))

abbrev pub stamp_start : {P : Type 0} → Dict String → Asgi.Message P → Asgi.Message P
stamp_start extra message =
    if same_text message.type "http.response.start"
    then record message { headers = message.headers ++ extra }
    else message

kept_all :
    {P : Type 0} (m : Asgi.Middleware P (List (Asgi.Message P))) (extra : Dict String)
    (messages log : List (Asgi.Message P))
    → sends_all messages (Asgi.send_wrapper m extra keep) log
      ≡ (ok tt, log ++ map (stamp_start extra) messages)
unfolding Asgi.send_wrapper Asgi.with_headers
kept_all m extra [] log = ap (λ kept. (ok tt, kept)) (sym (append-nil log))
kept_all m extra (message ∷ rest) log =
    let stamped = stamp_start extra message in
    kept_all m extra rest (log ++ (stamped ∷ []))
    ∙ ap (λ kept. (ok tt, kept)) (append_assoc log (stamped ∷ []) (map (stamp_start extra) rest))

-- Of an application that sends a list of messages, an allowed request's are sent on in the same order
-- and number, where the check itself sends none: each start of a response with the decision's headers
-- after its own, the others as they are.
starlette_stamps :
    {P : Type 0} (m : Asgi.Middleware P (List (Asgi.Message P)))
    (messages log : List (Asgi.Message P)) (scope : Asgi.Scope) (d : Decision)
    (headers : Dict String)
    → same_text scope.type "http" ≡ true
    → m.app ≡ sends_all messages
    → asgi_answer m scope log ≡ (ok d, log)
    → d.allowed ≡ true
    → decision_headers d m.style (m.clock log) ≡ ok headers
    → Asgi.middleware m scope keep log ≡ (ok tt, log ++ map (stamp_start headers) messages)
unfolding Asgi.middleware asked Asgi.after_check
starlette_stamps m messages log scope d headers http app answer allowed shown =
    rw (http, answer, shown, allowed, app) (kept_all m headers messages log)
