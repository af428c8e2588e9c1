-- ===== src/Examples/Admissions/Slots.antt =====
-- The slots of the third section of examples/concurrency_admit.py.
use throttlekit_py.Base.{
  String, has_text, eq_refl, ◌∙◌, ℕ, zero, suc, ◌≤◌, ◌==◌, Bool, true, false, ◌||◌, Option, none,
  some, List, [], ◌∷◌, ◌++◌, ◌≡◌, refl, arith, ap, if◌then◌else◌,
}
use throttlekit_py.Errors.{Result, ok, err}
use throttlekit_py.Grpc.{Reply, reply, failed, broke}
use throttlekit_py.Service.{RateLimiterStub, AdmitRequest, AdmitResponse, ReleaseRequest}
use throttlekit_py.Service.Admission.{
  new_admission, held, Admission, Client, admitted, admit, admit_reply, start_release, swallow,
  release,
}
use throttlekit_py.Service.Calls.{swallow_world}
use throttlekit_py.Service.Blocks.{Action, after_exit}
use throttlekit_py.Examples.Admissions.{
  allowed_of, then_do, slot_taken, hold_slots, release_at, release_slots, finally_release,
  press_cap,
}

abbrev has : ℕ → List ℕ → Bool
has i [] = false
has i (j ∷ js) = j == i || has i js

has-append : (i j : ℕ) (js : List ℕ) → has i (js ++ (j ∷ [])) ≡ (has i js || j == i)
has-append i j [] = ground arith
has-append i j (k ∷ js) = ground (arith, has-append i j js)

-- No admission stands from the next number on.
abbrev pub IsFresh : Client → Type 0
IsFresh c = (i : ℕ) → c.next ≤ i → c.at i ≡ none

-- The leases for which the service has been sent a `Release`, as the world keeps them: each call, however it
-- ends, adds its lease, and `Admit` adds none.
pub record ReleaseLog {W : Type 0} (stub : RateLimiterStub W) : Type 0 where
  pub returned : W → List String
  pub admit_adds_none : (r : AdmitRequest) (w : W) → returned (stub.admit r w).1 ≡ returned w
  pub release_adds :
      (r : ReleaseRequest) (w : W) → returned (stub.release r w).1 ≡ r.lease_id ∷ returned w

-- Of each admission since the start: if it is marked released and holds a slot, its lease is among those
-- returned; and if it is allowed, it stands in the list, or it is marked released.
abbrev Tracked : ℕ → List ℕ → Client → List String → Type 0
Tracked start js c returned =
    (i : ℕ) (a : Admission)
    → start ≤ i
    → c.at i ≡ some a
    → (a.released ≡ true → held a ≡ true → has_text a.lease_id returned ≡ true)
      × (a.decision.allowed ≡ true → (has i js || a.released) ≡ true)

admitted-Tracked :
    (start : ℕ) (js : List ℕ) (resp : AdmitResponse) (c : Client) (returned : List String)
    → IsFresh c
    → Tracked start js c returned
    → let c' = admitted resp false c in
      IsFresh c'
      × Tracked start (if allowed_of (c'.at c.next) then js ++ (c.next ∷ []) else js) c' returned
unfolding admitted new_admission
admitted-Tracked start js resp c returned fresh v = (
  λ i h. ground (arith, fresh i),
  λ i a h e. ground (arith, fresh i, v i a, has-append i c.next js),
)

then_do_ok :
    {W A B : Type 0} (out : Result A × Client × W) (rest : Action W B) {a : A}
    → out.0 ≡ ok a
    → then_do out rest ≡ rest out.1 out.2
then_do_ok (ok a', c, w) rest e = refl
then_do_ok (err x, c, w) rest e = ground arith

module _ {W : Type 0} (stub : RateLimiterStub W) (log : ReleaseLog stub) where
  open log use {returned}

  -- What a run of the loop keeps, from any client.
  abbrev KeepsTracked : ℕ → (List ℕ → Client → W → Result (Unit {0}) × List ℕ × Client × W) → Type 0
  KeepsTracked start turns =
      (js : List ℕ) (c : Client) (w : W)
      → IsFresh c
      → Tracked start js c (returned w)
      → let (r, js', c', w') = turns js c w in Tracked start js' c' (returned w')

  slot_taken-Tracked :
      (turns : List ℕ → Client → W → Result (Unit {0}) × List ℕ × Client × W) (start : ℕ)
      (js : List ℕ) (c : Client) (answer : Reply AdmitResponse × W)
      → KeepsTracked start turns
      → IsFresh c
      → Tracked start js c (returned answer.1)
      → let (r, js', c', w') = slot_taken stub turns js (admit_reply stub false c answer) in
        Tracked start js' c' (returned w')
  unfolding slot_taken admit_reply
  slot_taken-Tracked turns start js c (reply resp, w) keeps fresh v =
      let (fresh', v') = admitted-Tracked start js resp c (returned w) fresh v in
      keeps _ (admitted resp false c) w fresh' v'
  slot_taken-Tracked turns start js c (failed e, w) keeps fresh v = v
  slot_taken-Tracked turns start js c (broke e, w) keeps fresh v = v

  hold_slots-Tracked : (n start : ℕ) → KeepsTracked start (hold_slots stub n)
  unfolding hold_slots admit
  hold_slots-Tracked zero start js c w fresh v = v
  hold_slots-Tracked (suc n) start js c w fresh v =
      slot_taken-Tracked (hold_slots stub n) start js c (stub.admit _ w)
        (hold_slots-Tracked n start) fresh (rw (log.admit_adds_none _ w) v)

  module _
      (clean : (request : ReleaseRequest) (w : W)
        → (swallow (stub.release request w)).0 ≡ ok tt) where
    release_at-Tracked :
        (start j : ℕ) (js : List ℕ) (c : Client) (w : W) (o : Option Admission)
        → c.at j ≡ o
        → Tracked start (j ∷ js) c (returned w)
        → let (r, c', w') = release_at stub j o c w in
          (r ≡ ok tt) × Tracked start js c' (returned w')
    unfolding release_at release start_release
    release_at-Tracked start j js c w none e v = (refl, λ i a h e'. ground (arith, v i a h e'))
    release_at-Tracked start j js c w (some b) e v =
        let request : ReleaseRequest = record { lease_id = b.lease_id; dropped = false } in
        let added : returned (swallow (stub.release request w)).1 ≡ b.lease_id ∷ returned w =
          ap returned (swallow_world (stub.release request w)) ∙ log.release_adds request w in
        (
          ground (arith, clean request w),
          λ i a h e'. ground (arith, v i a h, added, eq_refl b.lease_id),
        )

    release_slots-Tracked :
        (start : ℕ) (js : List ℕ) (c : Client) (w : W)
        → Tracked start js c (returned w)
        → let (r, c', w') = release_slots stub js c w in
          (r ≡ ok tt) × Tracked start [] c' (returned w')
    unfolding release_slots
    release_slots-Tracked start [] c w v = (refl, v)
    release_slots-Tracked start (j ∷ js) c w v =
        let (done, v') = release_at-Tracked start j js c w (c.at j) refl v in
        rw (then_do_ok (release_at stub j (c.at j) c w) (release_slots stub js) done)
          (release_slots-Tracked start js _ _ v')

    -- The third section of the program, from any client in which the numbers from the next one on are
    -- free, for any number of turns, where each `Release` ends with a reply or an RpcError: it raises
    -- exactly what its loop raises, as when `Admit` fails with slots held, and every admission that it was
    -- allowed is marked released at its end, and if it holds a slot a `Release` of its lease has been sent.
    pub press_cap_releases :
        (n : ℕ) (c : Client) (w : W)
        → IsFresh c
        → let (r, c', w') = press_cap stub n c w in
          (r ≡ (hold_slots stub n [] c w).0)
          × ((i : ℕ) (a : Admission)
              → c.next ≤ i
              → c'.at i ≡ some a
              → a.decision.allowed ≡ true
              → (a.released ≡ true) × (held a ≡ true → has_text a.lease_id (returned w') ≡ true))
    unfolding press_cap finally_release
    press_cap_releases n c w fresh =
        let held_all =
          hold_slots-Tracked n c.next [] c w fresh
            (λ i a h e. absurd (ground (arith, fresh i h, e))) in
        let (done, v) = release_slots-Tracked c.next _ _ _ held_all in
        (
          ap (after_exit (hold_slots stub n [] c w).0) done,
          λ i a h e allows. let (sent, gone) = v i a h e in (gone allows, sent (gone allows)),
        )
