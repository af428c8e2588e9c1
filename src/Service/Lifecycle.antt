-- ===== src/Service/Lifecycle.antt =====
-- Interleavings of the callers' threads and the pumps' threads over the admissions of
-- src/throttlekit/service_backend.py, without a lock where the source has none. A release reads the flag
-- `_released` in one step, and in another sets it, takes the lease from the pump and begins its call; so
-- other releases and a heartbeat's reply may come between. `_ensure_pump` reads `_pump` in one step and sets it in
-- another, so that threads whose first admissions come at once make several pumps, of which the client keeps the
-- last; an admission is made known by its registration, which is a step of its own.
pub mod Invariant
pub mod Leases
pub mod Renewals
pub mod Late
mod Tests
use throttlekit_py.Base.{
  ℕ, suc, ◌+◌, ◌-◌, String, same_text, ◌==◌, Bool, true, false, not, ◌&&◌, Option, none, some, List,
  ◌≡◌, if◌then◌else◌,
}
use throttlekit_py.Service.{AdmitResponse}
use throttlekit_py.Service.Admission.{
  Admission, held, Client, Pump, new_admission, new_pump, register, write, start_release,
  reclaim_all,
}

-- `pumps`: the pumps by the order in which `_pump` was set to them, `count` of them. `making`: the threads that
-- have found `_pump` to be None and have not set it. `home i`: the pump that admission `i` is registered with.
-- `found i`: the releases that have found admission `i` not released; `entered i`: those of them that have
-- not gone on. `sent i`: the `Release` RPCs made for it.
pub record System : Type 0 where
  pub next : ℕ
  pub at : ℕ → Option Admission
  pub pumps : ℕ → Option Pump
  pub count : ℕ
  pub making : ℕ
  pub home : ℕ → ℕ
  pub found : ℕ → ℕ
  pub entered : ℕ → ℕ
  pub sent : ℕ → ℕ

abbrev pub put {ℓ} : {A : Type ℓ} → (ℕ → A) → ℕ → A → ℕ → A
put f i x j = if i == j then x else f j

-- `self._pump`, by its number.
abbrev pub current : System → ℕ
current s = s.count - 1

-- The admissions with one of the pumps, as what works on a pump finds and leaves them.
abbrev pub client_at : ℕ → System → Client
client_at k s = record { next = s.next; at = s.at; pump = s.pumps k }

abbrev pub put_client : ℕ → Client → System → System
put_client k c s = record s { next = c.next; at = c.at; pumps = put s.pumps k c.pump }

abbrev pub calls_after : Bool → ℕ → ℕ
calls_after makes n = if makes then suc n else n

pub data Step (s : System) : System → Type 0 where
  -- An admission without heartbeats or without a slot.
  admits :
      (resp : AdmitResponse) (heartbeat : Bool)
      → (heartbeat && not (same_text resp.lease_id "")) ≡ false
      → Step s
          (record s { next = suc s.next; at = write s.at s.next (new_admission resp heartbeat) })
  -- `if self._pump is None:`
  misses : s.count ≡ 0 → Step s (record s { making = suc s.making })
  -- `self._pump = _HeartbeatPump(…)`
  makes :
      (n : ℕ)
      → s.making ≡ suc n
      → Step s (record s {
        pumps = put s.pumps s.count (some new_pump);
        count = suc s.count;
        making = n;
      })
  -- `….register(adm)`, of a pump that `_ensure_pump` has returned, now or earlier.
  registers :
      (k : ℕ) (p : Pump) (resp : AdmitResponse)
      → s.pumps k ≡ some p
      → same_text resp.lease_id "" ≡ false
      → Step s (record s {
        next = suc s.next;
        at = write s.at s.next (new_admission resp true);
        pumps = put s.pumps k (some (register resp.lease_id s.next p));
        home = put s.home s.next k;
      })
  enters :
      (i : ℕ) (a : Admission)
      → s.at i ≡ some a
      → a.released ≡ false
      → Step s (record s {
        found = put s.found i (suc (s.found i));
        entered = put s.entered i (suc (s.entered i));
      })
  sends :
      (i n : ℕ) (a : Admission)
      → s.at i ≡ some a
      → s.entered i ≡ suc n
      → Step s (record (put_client (current s) (start_release i a (client_at (current s) s)) s) {
        entered = put s.entered i n;
        sent = put s.sent i (calls_after (held a) (s.sent i));
      })
  -- The reply to a heartbeat of a pump, whenever that was sent and whatever it lists.
  reclaims : (k : ℕ) (ids : List String) → Step s (put_client k (reclaim_all ids (client_at k s)) s)

pub data Reach (s : System) : System → Type 0 where
  here : Reach s s
  next_step : {t u : System} → Reach s t → Step t u → Reach s u

-- A client without admissions and without a pump.
pub record IsStart (s : System) : Type 0 where
  pub no_admissions : (i : ℕ) → s.at i ≡ none
  pub none_found : (i : ℕ) → s.found i ≡ 0
  pub none_entered : (i : ℕ) → s.entered i ≡ 0
  pub none_sent : (i : ℕ) → s.sent i ≡ 0
  pub no_pumps : (k : ℕ) → s.pumps k ≡ none
