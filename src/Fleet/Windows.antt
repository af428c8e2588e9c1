-- ===== src/Fleet/Windows.antt =====
-- The window-coupled clients of src/throttlekit/fleet_backend.py over a window: what they hold from leases
-- whose boundary has passed counts for nothing.
pub mod Clients
mod Tests
use throttlekit_py.Base.{
  ℕ, zero, suc, ℤ, pos, ◌+ℤ◌, ◌-ℤ◌, ◌≤ℤ◌, ◌<ℤ◌, max_ℤ, int_laws, +ℤ_parts, -ℤ_parts, Bool, true,
  false, Option, none, some, List, [], ◌∷◌, if◌then◌else◌, arith, ◌≡◌, refl,
}
use throttlekit_py.Errors.{Result, ok, err}
use throttlekit_py.Decision.{Decision}
use throttlekit_py.Grpc.{Reply, reply, failed, broke}
use throttlekit_py.Spender.{LeaseSpender, spend, is_past, new_spender, apply_lease}
use throttlekit_py.Spender.Branches.{spend_allows}
use throttlekit_py.Spender.History.{served, spend_pays}
use throttlekit_py.Fleet.{
  LeaseMessage, Lease, lease_of, granted, denied_decision, ReserveStub, ReserveRequest, Metadata,
  FleetBackend, LeasedLimiter, RoundEnd, done, again, lease_or_raise, axis_of, spender_for,
  take_lease, reserve, refresh, after_spend, spend_first, round,
}
use throttlekit_py.Fleet.Rounds.{
  Accounts, capacity_of, credits_of, balance, spent_in, limiter_after, world_after,
}

-- The credits of leases whose boundary lies after the time.
abbrev pub live_credits : ℤ → Option LeaseSpender → ℤ
live_credits start none = pos 0
live_credits start (some s) = if is_past s.expires_at start then pos 0 else s.credits

abbrev pub SpenderCoupled : Option LeaseSpender → Type 0
SpenderCoupled none = Unit
SpenderCoupled (some s) = (s.window_coupled ≡ true) × (pos 0 ≤ℤ s.credits)

-- A client that is window-coupled, and has no debt.
abbrev pub IsCoupled : LeasedLimiter → Type 0
IsCoupled l = (l.window_coupled ≡ true) × SpenderCoupled l.spender

abbrev pub expiry_of : Reply LeaseMessage → ℤ
expiry_of (reply msg) = msg.expiry_ms
expiry_of (failed e) = pos 0
expiry_of (broke e) = pos 0

-- In the given states of the world, the service grants only leases whose boundary lies after the time.
pub record GrantsAfter {W : Type 0} (stub : ReserveStub W) (start : ℤ) (InWindow : W → Type 0)
    : Type 0 where
  pub grants_later :
      (r : ReserveRequest) (m : Metadata) (w : W)
      → InWindow w
      → pos 0 <ℤ capacity_of (stub r m w).0
      → start <ℤ expiry_of (stub r m w).0

-- A spend at or after the time uses live credits only, and if it asks for a refresh none but live ones are
-- left.
spend_live :
    (start ts cost : ℤ) (s : LeaseSpender)
    → start ≤ℤ ts
    → SpenderCoupled (some s)
    → let (r, s') = spend s ts cost in
      SpenderCoupled (some s')
      × (served r cost +ℤ live_credits start (some s') ≤ℤ live_credits start (some s))
      × (r ≡ ok none → s'.credits ≤ℤ live_credits start (some s))
unfolding spend
spend_live start ts cost s late (coupled, held) = ground (
  arith,
  -ℤ_parts s.credits cost,
  +ℤ_parts cost (s.credits -ℤ cost),
  +ℤ_parts (pos 0) s.credits,
  +ℤ_parts cost (pos 0 -ℤ cost),
  -ℤ_parts (pos 0) cost,
  +ℤ_parts (pos 0) (pos 0),
)

take_lease_live :
    {W : Type 0} (start : ℤ) (l : LeasedLimiter) (answer : Reply LeaseMessage) (cost held : ℤ)
    (w : W)
    → IsCoupled l
    → balance l ≤ℤ held
    → pos 0 ≤ℤ capacity_of answer
    → (pos 0 <ℤ capacity_of answer → start <ℤ expiry_of answer)
    → let e = take_lease l (lease_or_raise answer) w in
      IsCoupled (limiter_after e)
      × (spent_in e cost ≡ pos 0)
      × (live_credits start (limiter_after e).spender ≤ℤ held +ℤ capacity_of answer)
      × (world_after e ≡ w)
unfolding take_lease granted denied_decision apply_lease lease_of spender_for new_spender
take_lease_live start l (reply msg) cost held w v h c later = ground (
  arith,
  +ℤ_parts (credits_of l.spender) msg.capacity,
  +ℤ_parts (pos 0) msg.capacity,
  +ℤ_parts held msg.capacity,
)
take_lease_live start l (failed x) cost held w v h c later = ground (arith, +ℤ_parts held (pos 0))
take_lease_live start l (broke x) cost held w v h c later = ground (arith, +ℤ_parts held (pos 0))

module _ {W : Type 0} (b : FleetBackend W) (accounts : Accounts b.stub) (start : ℤ)
    (InWindow : W → Type 0) (window : GrantsAfter b.stub start InWindow) where
  open accounts use {issued}

  -- The units used and the live credits are covered by the live credits before and what was granted.
  abbrev pub WindowCovered : LeasedLimiter → W → ℤ → RoundEnd W → Type 0
  WindowCovered l w cost e =
      IsCoupled (limiter_after e)
      × (spent_in e cost +ℤ live_credits start (limiter_after e).spender +ℤ issued w
          ≤ℤ live_credits start l.spender +ℤ issued (world_after e))

  -- A refresh when no more than the live credits of `before` are left.
  refresh-WindowCovered :
      (before : Option LeaseSpender) (l : LeasedLimiter) (cost : ℤ) (w : W)
      → IsCoupled l
      → balance l ≤ℤ live_credits start before
      → InWindow w
      → WindowCovered (record l { spender = before }) w cost (refresh b l cost w)
  unfolding refresh reserve
  refresh-WindowCovered before l cost w v h inside =
      let request : ReserveRequest = record {
        policy = l.policy;
        domain = l.domain;
        wants = max_ℤ cost l.batch;
        has = pos 0;
        used = pos 0;
        axis = axis_of "rate";
      } in
      let answer : Reply LeaseMessage × W = b.stub request b.metadata w in
      let (v', none_spent, bound, same) =
        take_lease_live start l answer.0 cost (live_credits start before) answer.1 v h
          (accounts.grants_nonneg request b.metadata w)
          (window.grants_later request b.metadata w inside) in
      (v', rw (none_spent, same) (omega (int_laws, accounts.grants_counted request b.metadata w)))

  after_spend-WindowCovered :
      (l : LeasedLimiter) (s : LeaseSpender) (cost ts : ℤ) (w : W)
      → l.window_coupled ≡ true
      → SpenderCoupled (some s)
      → start ≤ℤ ts
      → InWindow w
      → (e : Result (Option Decision) × LeaseSpender) → spend s ts cost ≡ e
      → WindowCovered (record l { spender = some s }) w cost (after_spend b l cost w e)
  unfolding after_spend
  after_spend-WindowCovered l s cost ts w coupled v late inside (ok (some d), s') eq =
      let (v', used, rest) = rw eq at (spend_live start ts cost s late v) in
      let allows = spend_allows s s' ts cost d eq in ((coupled, v'), rw allows.0 (omega int_laws))
  after_spend-WindowCovered l s cost ts w coupled v late inside (ok none, s') eq =
      let (v', used, rest) = rw eq at (spend_live start ts cost s late v) in
      refresh-WindowCovered (some s) (record l { spender = some s' }) cost w (coupled, v')
        (rest refl) inside
  after_spend-WindowCovered l s cost ts w coupled v late inside (err x, s') eq =
      let (v', used, rest) = rw eq at (spend_live start ts cost s late v) in
      ((coupled, v'), omega int_laws)

  spend_first-WindowCovered :
      (l : LeasedLimiter) (cost ts : ℤ) (w : W) (o : Option LeaseSpender)
      → l.spender ≡ o
      → l.window_coupled ≡ true
      → SpenderCoupled o
      → start ≤ℤ ts
      → InWindow w
      → WindowCovered (record l { spender = o }) w cost (spend_first b l cost ts w o)
  unfolding spend_first
  spend_first-WindowCovered l cost ts w none e coupled v late inside =
      refresh-WindowCovered none l cost w (coupled, rw e v) (rw e (omega arith)) inside
  spend_first-WindowCovered l cost ts w (some s) e coupled v late inside =
      after_spend-WindowCovered l s cost ts w coupled v late inside (spend s ts cost) refl

  pub round-WindowCovered :
      (l : LeasedLimiter) (cost ts : ℤ) (w : W)
      → IsCoupled l
      → start ≤ℤ ts
      → InWindow w
      → WindowCovered l w cost (round b l cost ts w)
  unfolding round
  round-WindowCovered l cost ts w (coupled, v) late inside =
      spend_first-WindowCovered l cost ts w l.spender refl coupled v late inside
