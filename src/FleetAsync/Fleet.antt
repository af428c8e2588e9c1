-- ===== src/FleetAsync/Fleet.antt =====
-- Many clients of src/throttlekit/fleet_backend_async.py on one service: each has a limiter whose calls
-- interleave at their awaits. A request is served at one time and its reply comes back at another, or is
-- lost; a call that is cancelled leaves its request to the service.
pub mod Budget
mod Tests
use throttlekit_py.Base.{
  ℕ, zero, suc, ℤ, pos, max_ℤ, Option, none, some, List, [], ◌∷◌, ◌==◌, ◌≡◌, if◌then◌else◌,
}
use throttlekit_py.Errors.{Exn, Result, ok, err}
use throttlekit_py.Fleet.{Lease, LeasedLimiter, max_rounds}
use throttlekit_py.FleetAsync.{run_loop, take_answer, Call, System, units, settle}
use throttlekit_py.FleetAsync.Backend.{AsyncFleetBackend, async_reserve}

-- The element at a place, and the list with another one there, or without it.
unfoldable pub nth : {A : Type 0} → ℕ → List A → Option A
nth k [] = none
nth zero (x ∷ xs) = some x
nth (suc k) (x ∷ xs) = nth k xs

unfoldable pub put : {A : Type 0} → ℕ → A → List A → List A
put k y [] = []
put zero y (x ∷ xs) = y ∷ xs
put (suc k) y (x ∷ xs) = x ∷ put k y xs

unfoldable pub drop_at : {A : Type 0} → ℕ → List A → List A
drop_at k [] = []
drop_at zero (x ∷ xs) = xs
drop_at (suc k) (x ∷ xs) = x ∷ drop_at k xs

-- A reply on its way to a call of a client.
pub record Flight : Type 0 where
  pub client : ℕ
  pub call : ℕ
  pub answer : Result Lease

pub record Fleet (W : Type 0) : Type 0 where
  pub clients : List System
  pub flights : List Flight
  pub world : W

abbrev pub forget : ℕ → System → System
forget i s = record s { calls = λ j. if i == j then none else s.calls j }

-- The call runs from its start to its first stop.
abbrev pub begun : ℕ → ℤ → ℤ → System → System
begun i cost ts s = settle i cost ts (pos 0) (run_loop max_rounds s.limiter cost ts) s

-- The call runs on from the answer of `reserve` to its next stop.
abbrev pub resumed : ℕ → Call → Result Lease → System → System
resumed i call answer s =
    settle i call.cost call.ts (units answer)
      (take_answer call.rounds_left s.limiter call.cost call.ts answer) s

module _ {W : Type 0} (b : AsyncFleetBackend W) where
  -- What the service makes of the request of a call.
  abbrev pub asked : LeasedLimiter → Call → W → Result Lease × W
  asked l call w =
      async_reserve b l.policy l.domain (max_ℤ call.cost l.batch) (pos 0) (pos 0) "rate" w

  pub data Step (f : Fleet W) : Fleet W → Type 0 where
    begins :
        (k i : ℕ) (s : System) (cost ts : ℤ)
        → nth k f.clients ≡ some s
        → s.calls i ≡ none
        → Step f (record f { clients = put k (begun i cost ts s) f.clients })
    serves :
        (k i : ℕ) (s : System) (call : Call)
        → nth k f.clients ≡ some s
        → s.calls i ≡ some call
        → Step f (record f {
          flights =
              record { client = k; call = i; answer = (asked s.limiter call f.world).0 }
              ∷ f.flights;
          world = (asked s.limiter call f.world).1;
        })
    delivers :
        (n : ℕ) (flight : Flight) (s : System) (call : Call)
        → nth n f.flights ≡ some flight
        → nth flight.client f.clients ≡ some s
        → s.calls flight.call ≡ some call
        → Step f (record f {
          clients = put flight.client (resumed flight.call call flight.answer s) f.clients;
          flights = drop_at n f.flights;
        })
    -- A reply is lost, or comes for a call that is no more.
    loses : (n : ℕ) → Step f (record f { flights = drop_at n f.flights })
    -- The RPC fails, whether or not the service has seen it.
    fails :
        (k i : ℕ) (s : System) (call : Call) (e : Exn)
        → nth k f.clients ≡ some s
        → s.calls i ≡ some call
        → Step f (record f { clients = put k (resumed i call (err e) s) f.clients })
    cancels :
        (k i : ℕ) (s : System) (call : Call)
        → nth k f.clients ≡ some s
        → s.calls i ≡ some call
        → Step f (record f { clients = put k (forget i s) f.clients })

  pub data Reach (f : Fleet W) : Fleet W → Type 0 where
    here : Reach f f
    next_step : {g h : Fleet W} → Reach f g → Step g h → Reach f h
