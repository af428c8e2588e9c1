-- ===== src/FleetAsync/Fleet/Budget.antt =====
-- The units of a fleet of async clients (src/throttlekit/fleet_backend_async.py).
use throttlekit_py.Base.{
  ℕ, zero, suc, ℤ, pos, ◌+ℤ◌, ◌≤ℤ◌, max_ℤ, int_laws, Bool-cases, none, some, List, [], ◌∷◌, ◌≡◌,
  arith, inl, inr,
}
use throttlekit_py.Errors.{err}
use throttlekit_py.Grpc.{Reply, reply, failed, broke}
use throttlekit_py.Fleet.{
  LeaseMessage, lease_of, granted, lease_or_raise, LeasedLimiter, ReserveRequest, max_rounds,
  axis_of,
}
use throttlekit_py.Fleet.Rounds.{Accounts, capacity_of, balance}
use throttlekit_py.FleetAsync.{Stop, run_loop, take_answer, Call, System, units, settle}
use throttlekit_py.FleetAsync.Interleaving.{
  StopCovered, run_loop-StopCovered, take_answer-StopCovered,
}
use throttlekit_py.FleetAsync.Backend.{AsyncFleetBackend, async_reserve}
use throttlekit_py.FleetAsync.Fleet.{
  nth, put, drop_at, Flight, Fleet, forget, begun, resumed, asked, Step, begins, serves, delivers,
  loses, fails, cancels, Reach, here, next_step,
}

-- What a client has used and holds.
abbrev pub amount : System → ℤ
amount s = s.served +ℤ balance s.limiter

abbrev pub total_amount : List System → ℤ
total_amount [] = pos 0
total_amount (s ∷ ss) = amount s +ℤ total_amount ss

abbrev pub total_served : List System → ℤ
total_served [] = pos 0
total_served (s ∷ ss) = s.served +ℤ total_served ss

abbrev pub AllHeld : List System → Type 0
AllHeld [] = Unit
AllHeld (s ∷ ss) = (pos 0 ≤ℤ balance s.limiter) × AllHeld ss

abbrev in_flight : List Flight → ℤ
in_flight [] = pos 0
in_flight (f ∷ fs) = units f.answer +ℤ in_flight fs

abbrev AllGrants : List Flight → Type 0
AllGrants [] = Unit
AllGrants (f ∷ fs) = (pos 0 ≤ℤ units f.answer) × AllGrants fs

-- Clients that have used nothing and hold nothing.
abbrev pub AllNew : List System → Type 0
AllNew [] = Unit
AllNew (s ∷ ss) = (s.served ≡ pos 0) × (s.limiter.spender ≡ none) × AllNew ss

put-amount :
    (k : ℕ) (s t : System) (ss : List System)
    → nth k ss ≡ some s
    → total_amount (put k t ss) +ℤ amount s ≤ℤ total_amount ss +ℤ amount t
unfolding nth put
put-amount k s t [] e = absurd (ground arith)
put-amount zero s t (x ∷ ss) e = let same : x ≡ s = cc in rw same (omega int_laws)
put-amount (suc k) s t (x ∷ ss) e = omega (int_laws, put-amount k s t ss e)

put-AllHeld :
    (k : ℕ) (t : System) (ss : List System)
    → AllHeld ss
    → pos 0 ≤ℤ balance t.limiter
    → AllHeld (put k t ss)
unfolding put
put-AllHeld k t [] h new = tt
put-AllHeld zero t (x ∷ ss) h new = (new, h.1)
put-AllHeld (suc k) t (x ∷ ss) h new = (h.0, put-AllHeld k t ss h.1 new)

held_at :
    (k : ℕ) (s : System) (ss : List System)
    → nth k ss ≡ some s
    → AllHeld ss
    → pos 0 ≤ℤ balance s.limiter
unfolding nth
held_at k s [] e h = absurd (ground arith)
held_at zero s (x ∷ ss) e h = let same : x ≡ s = cc in rw same at h.0
held_at (suc k) s (x ∷ ss) e h = held_at k s ss e h.1

dropped_units :
    (n : ℕ) (fs : List Flight)
    → AllGrants fs
    → AllGrants (drop_at n fs) × (in_flight (drop_at n fs) ≤ℤ in_flight fs)
unfolding drop_at
dropped_units n [] h = (tt, omega int_laws)
dropped_units zero (f ∷ fs) h = (h.1, omega int_laws)
dropped_units (suc n) (f ∷ fs) h =
    let rest = dropped_units n fs h.1 in ((h.0, rest.0), omega (int_laws, rest.1))

delivered_units :
    (n : ℕ) (flight : Flight) (fs : List Flight)
    → nth n fs ≡ some flight
    → in_flight (drop_at n fs) +ℤ units flight.answer ≤ℤ in_flight fs
unfolding nth drop_at
delivered_units n flight [] e = absurd (ground arith)
delivered_units zero flight (f ∷ fs) e = let same : f ≡ flight = cc in rw same (omega int_laws)
delivered_units (suc n) flight (f ∷ fs) e = omega (int_laws, delivered_units n flight fs e)

-- What a step of one call adds to the amount of its client is covered by the units of its answer.
settled :
    (i : ℕ) (cost ts new : ℤ) (out : Stop × LeasedLimiter) (s : System)
    → StopCovered cost s.limiter new out
    → (pos 0 ≤ℤ balance (settle i cost ts new out s).limiter)
      × (amount (settle i cost ts new out s) ≤ℤ amount s +ℤ new)
settled i cost ts new (stop, l) s c = (c.0, omega int_laws)

reply_units :
    (r : Reply LeaseMessage)
    → pos 0 ≤ℤ capacity_of r
    → (pos 0 ≤ℤ units (lease_or_raise r)) × (units (lease_or_raise r) ≤ℤ capacity_of r)
unfolding lease_of granted
reply_units (reply msg) h = elim (Bool-cases (granted (lease_of msg))) [
  | inl g ↦ rw g (h, omega int_laws)
  | inr g ↦ rw g (omega int_laws, h)
]
reply_units (failed e) h = (omega int_laws, h)
reply_units (broke e) h = (omega int_laws, h)

module _ {W : Type 0} (b : AsyncFleetBackend W) (accounts : Accounts b.stub) where
  open accounts use {issued}

  record Sound (start : ℤ) (f : Fleet W) : Type 0 where
    held : AllHeld f.clients
    grants : AllGrants f.flights
    counted : start +ℤ total_amount f.clients +ℤ in_flight f.flights ≤ℤ issued f.world

  asked_units :
      (l : LeasedLimiter) (call : Call) (w : W)
      → (pos 0 ≤ℤ units (asked b l call w).0)
        × (issued w +ℤ units (asked b l call w).0 ≤ℤ issued (asked b l call w).1)
  unfolding async_reserve
  asked_units l call w =
      let request : ReserveRequest = record {
        policy = l.policy;
        domain = l.domain;
        wants = max_ℤ call.cost l.batch;
        has = pos 0;
        used = pos 0;
        axis = axis_of "rate";
      } in
      let (nonneg, fewer) =
        reply_units (b.stub request b.metadata w).0 (accounts.grants_nonneg request b.metadata w) in
      (nonneg, omega (int_laws, fewer, accounts.grants_counted request b.metadata w))

  moved :
      (start : ℤ) (f : Fleet W) (k : ℕ) (s t : System)
      → nth k f.clients ≡ some s
      → (pos 0 ≤ℤ balance t.limiter) × (amount t ≤ℤ amount s +ℤ pos 0)
      → Sound start f
      → Sound start (record f { clients = put k t f.clients })
  moved start f k s t there (new, bound) v = record {
    held = put-AllHeld k t f.clients v.held new;
    grants = v.grants;
    counted = omega (int_laws, put-amount k s t f.clients there, bound, v.counted);
  }

  Step-Sound : (start : ℤ) {f g : Fleet W} → Step b f g → Sound start f → Sound start g
  Step-Sound start {f} (begins k i s cost ts there free) v =
      moved start f k s (begun i cost ts s) there
        (settled i cost ts (pos 0) (run_loop max_rounds s.limiter cost ts) s
          (run_loop-StopCovered max_rounds s.limiter cost ts (held_at k s f.clients there v.held)))
        v
  Step-Sound start {f} (serves k i s call there waits) v =
      let (nonneg, more) = asked_units s.limiter call f.world in
      record {
        held = v.held;
        grants = (nonneg, v.grants);
        counted = omega (int_laws, more, v.counted);
      }
  Step-Sound start {f} (delivers n flight s call flies there waits) v =
      let (new, bound) =
        settled flight.call call.cost call.ts (units flight.answer)
          (take_answer call.rounds_left s.limiter call.cost call.ts flight.answer) s
          (take_answer-StopCovered call.rounds_left s.limiter call.cost call.ts flight.answer
            (held_at flight.client s f.clients there v.held)) in
      record {
        held =
            put-AllHeld flight.client (resumed flight.call call flight.answer s) f.clients v.held
              new;
        grants = (dropped_units n f.flights v.grants).0;
        counted = omega (
          int_laws,
          put-amount flight.client s (resumed flight.call call flight.answer s) f.clients there,
          bound,
          delivered_units n flight f.flights flies,
          v.counted,
        );
      }
  Step-Sound start {f} (loses n) v =
      let (grants, fewer) = dropped_units n f.flights v.grants in
      record { held = v.held; grants = grants; counted = omega (int_laws, fewer, v.counted) }
  Step-Sound start {f} (fails k i s call e there waits) v =
      moved start f k s (resumed i call (err e) s) there
        (settled i call.cost call.ts (pos 0)
          (take_answer call.rounds_left s.limiter call.cost call.ts (err e)) s
          (take_answer-StopCovered call.rounds_left s.limiter call.cost call.ts (err e)
            (held_at k s f.clients there v.held)))
        v
  Step-Sound start {f} (cancels k i s call there waits) v =
      moved start f k s (forget i s) there (held_at k s f.clients there v.held, omega int_laws) v

  Reach-Sound : (start : ℤ) {f g : Fleet W} → Reach b f g → Sound start f → Sound start g
  Reach-Sound start here v = v
  Reach-Sound start (next_step reached st) v = Step-Sound start st (Reach-Sound start reached v)

  new_total : (ss : List System) → AllNew ss → AllHeld ss × (total_amount ss ≤ℤ pos 0)
  new_total [] h = (tt, omega arith)
  new_total (s ∷ ss) (served, unsent, h) =
      let rest = new_total ss h in
      ((rw unsent (omega arith), rest.0), rw (unsent, served) (omega (int_laws, rest.1)))

  served_total : (ss : List System) → AllHeld ss → total_served ss ≤ℤ total_amount ss
  served_total [] h = omega arith
  served_total (s ∷ ss) h = omega (int_laws, served_total ss h.1, h.0)

  flying_total : (fs : List Flight) → AllGrants fs → pos 0 ≤ℤ in_flight fs
  flying_total [] h = omega arith
  flying_total (f ∷ fs) h = omega (int_laws, flying_total fs h.1, h.0)

  -- A service that never grants more than a budget is never overshot by a fleet of new async clients,
  -- however their calls interleave at their awaits, whichever are cancelled or fail, and whenever the
  -- replies come back or are lost: with what was granted before, the units that all clients use stay
  -- within the budget.
  pub async_fleet_within_budget :
      (budget : ℤ) {f g : Fleet W}
      → ((v : W) → issued v ≤ℤ budget)
      → AllNew f.clients
      → f.flights ≡ []
      → Reach b f g
      → total_served g.clients +ℤ issued f.world ≤ℤ budget
  async_fleet_within_budget budget {f} {g} within new none_fly reached =
      let (held, nothing) = new_total f.clients new in
      let start : Sound (issued f.world) f = record {
        held = held;
        grants = rw none_fly tt;
        counted = rw none_fly (omega (int_laws, nothing));
      } in
      let v = Reach-Sound (issued f.world) reached start in
      omega (
        int_laws,
        served_total g.clients v.held,
        flying_total g.flights v.grants,
        v.counted,
        within g.world,
      )
