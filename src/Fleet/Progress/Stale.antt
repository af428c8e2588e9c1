-- ===== src/Fleet/Progress/Stale.antt =====
-- `LeasedLimiter.check` when the client's clock is past the boundary of all that the service grants
-- (src/throttlekit/fleet_backend.py).
use throttlekit_py.Base.{
  ℕ, zero, suc, ℤ, pos, ◌+ℤ◌, ◌≤ℤ◌, ◌<ℤ◌, int_laws, +ℤ_parts, true, Option, none, some, arith, ◌≡◌,
  refl,
}
use throttlekit_py.Decision.{Decision}
use throttlekit_py.Errors.{Result, ok}
use throttlekit_py.Grpc.{Reply, reply, failed, broke}
use throttlekit_py.Spender.{LeaseSpender, spend, new_spender, apply_lease}
use throttlekit_py.Spender.Branches.{spend_rolled}
use throttlekit_py.Fleet.{
  LeaseMessage, lease_of, lease_or_raise, granted, ReserveRequest, Metadata, FleetBackend,
  LeasedLimiter, RoundEnd, done, again, spender_for, take_lease, reserve, refresh, after_spend,
  spend_first, round, next_round, rounds, rounds_exceeded, max_rounds, check,
}
use throttlekit_py.Fleet.Rounds.{Accounts, capacity_of, credits_of}
use throttlekit_py.Fleet.Progress.{refresh_request}

-- A grant of one unit or more whose boundary is not after `ts`.
abbrev pub IsStale : ℤ → Reply LeaseMessage → Type 0
IsStale ts (reply msg) = (pos 1 ≤ℤ msg.capacity) × (msg.expiry_ms ≤ℤ ts)
IsStale ts (failed e) = ⊥
IsStale ts (broke e) = ⊥

abbrev pub PastBoundary : ℤ → Option ℤ → Type 0
PastBoundary ts none = ⊥
PastBoundary ts (some boundary) = boundary ≤ℤ ts

-- All that the limiter holds is discarded at `ts`.
abbrev pub HoldsStale : ℤ → Option LeaseSpender → Type 0
HoldsStale ts none = Unit
HoldsStale ts (some s) =
    (s.window_coupled ≡ true) × PastBoundary ts s.expires_at × (pos 0 ≤ℤ s.credits)

module _ {W : Type 0} (b : FleetBackend W) (accounts : Accounts b.stub) (ts : ℤ) where
  open accounts use {issued}

  -- The loop goes on, the limiter is as before, and a unit at least has been granted.
  abbrev Wastes : W → RoundEnd W → Type 0
  Wastes w (done r l' w') = ⊥
  Wastes w (again l' w') =
      (l'.window_coupled ≡ true) × HoldsStale ts l'.spender × (issued w +ℤ pos 1 ≤ℤ issued w')

  take_lease-Wastes :
      (l : LeasedLimiter) (answer : Reply LeaseMessage) (w w' : W)
      → l.window_coupled ≡ true
      → HoldsStale ts l.spender
      → IsStale ts answer
      → issued w +ℤ capacity_of answer ≤ℤ issued w'
      → Wastes w (take_lease l (lease_or_raise answer) w')
  unfolding take_lease granted spender_for new_spender apply_lease lease_of
  take_lease-Wastes l (reply msg) w w' coupled held stale counted = ground (
    arith,
    +ℤ_parts (pos 0) msg.capacity,
    +ℤ_parts (credits_of l.spender) msg.capacity,
    +ℤ_parts (issued w) (pos 1),
    +ℤ_parts (issued w) msg.capacity,
  )
  take_lease-Wastes l (failed e) w w' coupled held stale counted = absurd stale
  take_lease-Wastes l (broke e) w w' coupled held stale counted = absurd stale

  refresh-Wastes :
      (l : LeasedLimiter) (cost : ℤ) (w : W)
      → l.window_coupled ≡ true
      → HoldsStale ts l.spender
      → ((r : ReserveRequest) (m : Metadata) (v : W) → IsStale ts (b.stub r m v).0)
      → Wastes w (refresh b l cost w)
  unfolding refresh reserve
  refresh-Wastes l cost w coupled held stale =
      let request : ReserveRequest = refresh_request l cost in
      let answer : Reply LeaseMessage × W = b.stub request b.metadata w in
      take_lease-Wastes l answer.0 w answer.1 coupled held (stale request b.metadata w)
        (accounts.grants_counted request b.metadata w)

  spend_stale :
      (s : LeaseSpender) (cost : ℤ) (o : Option ℤ)
      → s.expires_at ≡ o
      → PastBoundary ts o
      → s.window_coupled ≡ true
      → pos 0 ≤ℤ s.credits
      → pos 0 <ℤ cost
      → spend s ts cost ≡ (ok none, record s { credits = pos 0 })
  spend_stale s cost none e past coupled held positive = absurd past
  spend_stale s cost (some boundary) e past coupled held positive =
      spend_rolled s ts cost boundary coupled e past positive held

  spend_first-Wastes :
      (l : LeasedLimiter) (cost : ℤ) (w : W) (o : Option LeaseSpender)
      → l.spender ≡ o
      → HoldsStale ts o
      → l.window_coupled ≡ true
      → pos 0 <ℤ cost
      → ((r : ReserveRequest) (m : Metadata) (v : W) → IsStale ts (b.stub r m v).0)
      → Wastes w (spend_first b l cost ts w o)
  unfolding spend_first after_spend
  spend_first-Wastes l cost w none e held coupled positive stale =
      refresh-Wastes l cost w coupled (rw e tt) stale
  spend_first-Wastes l cost w (some s) e held coupled positive stale =
      rw (spend_stale s cost s.expires_at refl held.1 held.0 held.2 positive) (
        refresh-Wastes (record l { spender = some (record s { credits = pos 0 }) }) cost w coupled
          (held.0, held.1, omega arith) stale)

  abbrev UsedUp : ℕ → W → Option (Result Decision) × LeasedLimiter × W → Type 0
  UsedUp n w (r, l', w') = (r ≡ none) × (issued w +ℤ pos n ≤ℤ issued w')

  next_round-UsedUp :
      (n : ℕ) (w : W) (e : RoundEnd W)
      (rest : LeasedLimiter → W → Option (Result Decision) × LeasedLimiter × W)
      → Wastes w e
      → ((l' : LeasedLimiter) (w' : W)
          → l'.window_coupled ≡ true
          → HoldsStale ts l'.spender
          → UsedUp n w' (rest l' w'))
      → UsedUp (suc n) w (next_round e rest)
  unfolding next_round
  next_round-UsedUp n w (done r l' w') rest wasted go = absurd wasted
  next_round-UsedUp n w (again l' w') rest wasted go =
      let (out, counted) = go l' w' wasted.0 wasted.1 in (out, omega int_laws)

  rounds-UsedUp :
      (n : ℕ) (l : LeasedLimiter) (cost : ℤ) (w : W)
      → l.window_coupled ≡ true
      → HoldsStale ts l.spender
      → pos 0 <ℤ cost
      → ((r : ReserveRequest) (m : Metadata) (v : W) → IsStale ts (b.stub r m v).0)
      → UsedUp n w (rounds b n l cost ts w)
  unfolding rounds round
  rounds-UsedUp zero l cost w coupled held positive stale = (refl, omega int_laws)
  rounds-UsedUp (suc n) l cost w coupled held positive stale =
      next_round-UsedUp n w _ _
        (spend_first-Wastes l cost w l.spender refl held coupled positive stale)
        (λ l' w' coupled' held'. rounds-UsedUp n l' cost w' coupled' held' positive stale)

  -- If the clock of a window-coupled client is at or past the boundary of every lease that the
  -- service grants it, one `check` of a positive cost uses up its rounds and raises, though every
  -- `Reserve` was granted; at least 1024 units of the budget are gone, and none is spent.
  pub stale_check_raises :
      (l : LeasedLimiter) (cost : ℤ) (w : W)
      → l.window_coupled ≡ true
      → HoldsStale ts l.spender
      → pos 0 <ℤ cost
      → ((r : ReserveRequest) (m : Metadata) (v : W) → IsStale ts (b.stub r m v).0)
      → let (r, l', w') = check b l cost ts w in
        (r ≡ rounds_exceeded b cost) × (issued w +ℤ pos 1024 ≤ℤ issued w')
  unfolding check
  stale_check_raises l cost w coupled held positive stale =
      let (out, counted) = rounds-UsedUp max_rounds l cost w coupled held positive stale in
      (rw out, counted)
