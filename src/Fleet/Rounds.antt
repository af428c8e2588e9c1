-- ===== src/Fleet/Rounds.antt =====
-- The balance of a `LeasedLimiter` over a round of `check` (src/throttlekit/fleet_backend.py),
-- against a service that accounts for what it grants.
use throttlekit_py.Base.{
  ℕ, zero, suc, ℤ, pos, ◌+ℤ◌, ◌≤ℤ◌, max_ℤ, int_laws, +ℤ_parts, Option, none, some, if◌then◌else◌,
  arith, ◌≡◌, refl,
}
use throttlekit_py.Decision.{Decision}
use throttlekit_py.Errors.{Result, ok, err}
use throttlekit_py.Grpc.{Reply, reply, failed, broke}
use throttlekit_py.Spender.{LeaseSpender, spend, new_spender, apply_lease}
use throttlekit_py.Spender.Branches.{spend_allows}
use throttlekit_py.Spender.History.{spend_pays}
use throttlekit_py.Fleet.{
  LeaseMessage, Lease, lease_of, granted, denied_decision, ReserveStub, ReserveRequest, Metadata,
  FleetBackend, LeasedLimiter, RoundEnd, done, again, lease_or_raise, axis_of, spender_for,
  take_lease, reserve, refresh, after_spend, spend_first, round, next_round, rounds, or_exceeded,
  check, max_rounds,
}

-- The units that a reply of `Reserve` grants.
abbrev pub capacity_of : Reply LeaseMessage → ℤ
capacity_of (reply msg) = msg.capacity
capacity_of (failed e) = pos 0
capacity_of (broke e) = pos 0

-- The service keeps count of the units that it has granted: a grant is not negative, and adds its
-- capacity to the count, which never falls.
pub record Accounts {W : Type 0} (stub : ReserveStub W) : Type 0 where
  pub issued : W → ℤ
  pub grants_nonneg :
      (r : ReserveRequest) (m : Metadata) (w : W) → pos 0 ≤ℤ capacity_of (stub r m w).0
  pub grants_counted :
      (r : ReserveRequest) (m : Metadata) (w : W)
      → issued w +ℤ capacity_of (stub r m w).0 ≤ℤ issued (stub r m w).1

-- The local credits.
abbrev pub credits_of : Option LeaseSpender → ℤ
credits_of none = pos 0
credits_of (some s) = s.credits

abbrev pub balance : LeasedLimiter → ℤ
balance l = credits_of l.spender

-- What the caller may use: the cost, if the decision allows it.
abbrev pub spent : Result Decision → ℤ → ℤ
spent (ok d) cost = if d.allowed then cost else pos 0
spent (err e) cost = pos 0

abbrev pub spent_in : {W : Type 0} → RoundEnd W → ℤ → ℤ
spent_in (done r l w) cost = spent r cost
spent_in (again l w) cost = pos 0

abbrev pub limiter_after : {W : Type 0} → RoundEnd W → LeasedLimiter
limiter_after (done r l w) = l
limiter_after (again l w) = l

abbrev pub world_after : {W : Type 0} → RoundEnd W → W
world_after (done r l w) = w
world_after (again l w) = w

pub spender_for-credits :
    (l : LeasedLimiter) (lease : Lease) → (spender_for l lease).credits ≡ balance l
unfolding spender_for new_spender
spender_for-credits l lease = ground arith

take_lease-balance :
    {W : Type 0} (l : LeasedLimiter) (answer : Reply LeaseMessage) (cost : ℤ) (w : W)
    → pos 0 ≤ℤ balance l
    → pos 0 ≤ℤ capacity_of answer
    → let e = take_lease l (lease_or_raise answer) w in
      (spent_in e cost ≡ pos 0)
      × (pos 0 ≤ℤ balance (limiter_after e))
      × (balance (limiter_after e) ≤ℤ balance l +ℤ capacity_of answer)
      × (world_after e ≡ w)
unfolding take_lease granted denied_decision apply_lease lease_of
take_lease-balance l (reply msg) cost w h c =
    let lease = lease_of msg in
    ground (
      arith,
      spender_for-credits l lease,
      +ℤ_parts (spender_for l lease).credits msg.capacity,
      +ℤ_parts (balance l) msg.capacity,
    )
take_lease-balance l (failed e) cost w h c = (refl, h, omega int_laws, refl)
take_lease-balance l (broke e) cost w h c = (refl, h, omega int_laws, refl)

module _ {W : Type 0} (b : FleetBackend W) (accounts : Accounts b.stub) where
  open accounts use {issued}

  -- Credits are not negative, and the units spent and held are covered by those held before and
  -- those that the service has granted since.
  abbrev pub Covered : LeasedLimiter → W → ℤ → LeasedLimiter → W → Type 0
  Covered l w used l' w' =
      (pos 0 ≤ℤ balance l') × (used +ℤ balance l' +ℤ issued w ≤ℤ balance l +ℤ issued w')

  abbrev pub RoundCovered : LeasedLimiter → W → ℤ → RoundEnd W → Type 0
  RoundCovered l w cost e = Covered l w (spent_in e cost) (limiter_after e) (world_after e)

  refresh-RoundCovered :
      (l : LeasedLimiter) (cost : ℤ) (w : W)
      → pos 0 ≤ℤ balance l
      → RoundCovered l w cost (refresh b l cost w)
  unfolding refresh reserve
  refresh-RoundCovered l cost w h =
      let request : ReserveRequest = record {
        policy = l.policy;
        domain = l.domain;
        wants = max_ℤ cost l.batch;
        has = pos 0;
        used = pos 0;
        axis = axis_of "rate";
      } in
      let answer : Reply LeaseMessage × W = b.stub request b.metadata w in
      let (none_spent, held, bound, same) =
        take_lease-balance l answer.0 cost answer.1 h
          (accounts.grants_nonneg request b.metadata w) in
      (held, rw (none_spent, same) (omega (int_laws, accounts.grants_counted request b.metadata w)))

  after_spend-RoundCovered :
      (l : LeasedLimiter) (s : LeaseSpender) (cost ts : ℤ) (w : W)
      → pos 0 ≤ℤ s.credits
      → (e : Result (Option Decision) × LeaseSpender) → spend s ts cost ≡ e
      → RoundCovered (record l { spender = some s }) w cost (after_spend b l cost w e)
  unfolding after_spend
  after_spend-RoundCovered l s cost ts w h (ok (some d), s') eq =
      let paid = rw eq at (spend_pays s ts cost h) in
      let allows = spend_allows s s' ts cost d eq in (paid.0, rw allows.0 (omega int_laws))
  after_spend-RoundCovered l s cost ts w h (ok none, s') eq =
      let paid = rw eq at (spend_pays s ts cost h) in
      let rest = refresh-RoundCovered (record l { spender = some s' }) cost w paid.0 in
      (rest.0, omega int_laws)
  after_spend-RoundCovered l s cost ts w h (err e, s') eq =
      let paid = rw eq at (spend_pays s ts cost h) in (paid.0, omega int_laws)

  spend_first-RoundCovered :
      (l : LeasedLimiter) (cost ts : ℤ) (w : W) (o : Option LeaseSpender)
      → l.spender ≡ o
      → pos 0 ≤ℤ credits_of o
      → RoundCovered l w cost (spend_first b l cost ts w o)
  unfolding spend_first after_spend
  spend_first-RoundCovered l cost ts w none e h = refresh-RoundCovered l cost w (rw e (omega arith))
  spend_first-RoundCovered l cost ts w (some s) e h =
      let c = after_spend-RoundCovered l s cost ts w h (spend s ts cost) refl in (c.0, rw e c.1)

  -- A round keeps the count, also when the service refuses, fails or raises.
  pub round-RoundCovered :
      (l : LeasedLimiter) (cost ts : ℤ) (w : W)
      → pos 0 ≤ℤ balance l
      → RoundCovered l w cost (round b l cost ts w)
  unfolding round
  round-RoundCovered l cost ts w h = spend_first-RoundCovered l cost ts w l.spender refl h

  -- What `check` has used when it ends.
  abbrev pub spent_of : Option (Result Decision) → ℤ → ℤ
  spent_of none cost = pos 0
  spent_of (some r) cost = spent r cost

  abbrev LoopCovered : LeasedLimiter → W → ℤ → Option (Result Decision) × LeasedLimiter × W → Type 0
  LoopCovered l w cost (r, l', w') = Covered l w (spent_of r cost) l' w'

  next_round-LoopCovered :
      (l : LeasedLimiter) (w : W) (cost : ℤ) (e : RoundEnd W)
      (rest : LeasedLimiter → W → Option (Result Decision) × LeasedLimiter × W)
      → RoundCovered l w cost e
      → ((l' : LeasedLimiter) (w' : W) → pos 0 ≤ℤ balance l' → LoopCovered l' w' cost (rest l' w'))
      → LoopCovered l w cost (next_round e rest)
  unfolding next_round
  next_round-LoopCovered l w cost (done r l' w') rest c keep = c
  next_round-LoopCovered l w cost (again l' w') rest c keep =
      let (held, counted) = keep l' w' c.0 in (held, omega int_laws)

  rounds-LoopCovered :
      (n : ℕ) (l : LeasedLimiter) (cost ts : ℤ) (w : W)
      → pos 0 ≤ℤ balance l
      → LoopCovered l w cost (rounds b n l cost ts w)
  unfolding rounds
  rounds-LoopCovered zero l cost ts w h = (h, omega int_laws)
  rounds-LoopCovered (suc n) l cost ts w h =
      next_round-LoopCovered l w cost (round b l cost ts w) (λ l' w'. rounds b n l' cost ts w')
        (round-RoundCovered l cost ts w h) (λ l' w' h'. rounds-LoopCovered n l' cost ts w' h')

  or_exceeded-spent :
      (r : Option (Result Decision)) (cost : ℤ)
      → spent (or_exceeded b cost r) cost ≡ spent_of r cost
  or_exceeded-spent none cost = refl
  or_exceeded-spent (some r) cost = refl

  -- One `check`, however it ends: the units that it lets the caller use and the credits that it
  -- leaves are covered by the credits before and the units that the service granted meanwhile, and
  -- the credits left are not negative.
  pub check-Covered :
      (l : LeasedLimiter) (cost ts : ℤ) (w : W)
      → pos 0 ≤ℤ balance l
      → let (r, l', w') = check b l cost ts w in Covered l w (spent r cost) l' w'
  unfolding check
  check-Covered l cost ts w h =
      let (r, l', w') = rounds b max_rounds l cost ts w in
      let c = rounds-LoopCovered max_rounds l cost ts w h in
      (c.0, rw (or_exceeded-spent r cost) c.1)
