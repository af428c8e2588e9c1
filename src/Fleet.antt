-- ===== src/Fleet.antt =====
-- src/throttlekit/fleet_backend.py: `Lease`, `FleetBackend.reserve` and `LeasedLimiter`. The
-- channel and the stub are outside: the stub is a function of the state `W` of the world.
pub mod Rounds
pub mod Budget
pub mod Windows
pub mod Progress
pub mod Denials
mod Tests
use throttlekit_py.Base.{
  ℕ, zero, suc, String, ℤ, pos, ltb_ℤ, max_ℤ, str_int, text_append, same_text, Bool, false, true,
  Option, none, some, if◌then◌else◌,
}
use throttlekit_py.Decision.{Decision}
use throttlekit_py.Errors.{Result, ok, err, value_error, throttle_kit_error}
use throttlekit_py.Grpc.{Reply, reply, failed, broke, reply_or_raise}
use throttlekit_py.Spender.{LeaseSpender, new_spender, apply_lease, spend}

-- `throttlekit.v1.Lease` on the wire, and `Lease`: the same fields.
pub record LeaseMessage : Type 0 where
  pub capacity : ℤ
  pub expiry_ms : ℤ
  pub refresh_interval_ms : ℤ
  pub safe_capacity : ℤ
  pub retry_after_ms : ℤ
  pub limit : ℤ

pub record Lease : Type 0 where
  pub capacity : ℤ
  pub expiry_ms : ℤ
  pub refresh_interval_ms : ℤ
  pub safe_capacity : ℤ
  pub retry_after_ms : ℤ
  pub limit : ℤ

-- `_lease`
unfoldable pub lease_of : LeaseMessage → Lease
lease_of msg = record {
  capacity = msg.capacity;
  expiry_ms = msg.expiry_ms;
  refresh_interval_ms = msg.refresh_interval_ms;
  safe_capacity = msg.safe_capacity;
  retry_after_ms = msg.retry_after_ms;
  limit = msg.limit;
}

unfoldable pub granted : Lease → Bool
granted lease = ltb_ℤ (pos 0) lease.capacity

unfoldable pub denied_decision : Lease → Decision
denied_decision lease = record {
  allowed = false;
  limit = lease.limit;
  remaining = pos 0;
  reset_at = lease.expiry_ms;
  retry_after_ms = lease.retry_after_ms;
}

pub data Axis : Type 0 where
  axis_unspecified axis_rate axis_concurrency axis_token_budget : Axis

-- `_AXIS.get(axis, pb.AXIS_UNSPECIFIED)`
unfoldable pub axis_of : String → Axis
axis_of axis =
    if same_text axis "rate"
    then axis_rate
    else if same_text axis "token_budget"
    then axis_token_budget
    else if same_text axis "concurrency"
    then axis_concurrency
    else axis_unspecified

pub record ReserveRequest : Type 0 where
  pub policy : String
  pub domain : String
  pub wants : ℤ
  pub has : ℤ
  pub used : ℤ
  pub axis : Axis

abbrev pub Metadata : Type 0
Metadata = Option (String × String)

-- `FleetStub.Reserve`
abbrev pub ReserveStub : Type 0 → Type 0
ReserveStub W = ReserveRequest → Metadata → W → Reply LeaseMessage × W

pub record FleetBackend (W : Type 0) : Type 0 where
  pub stub : ReserveStub W
  pub metadata : Metadata

-- `(("x-fleet-secret", secret),) if secret else None`
unfoldable pub fleet_metadata : Option String → Metadata
fleet_metadata none = none
fleet_metadata (some secret) = if same_text secret "" then none else some ("x-fleet-secret", secret)

-- `__init__`, the stub of the channel given.
unfoldable pub new_fleet_backend : {W : Type 0} → ReserveStub W → Option String → FleetBackend W
unfolding fleet_metadata
new_fleet_backend stub secret = record { stub = stub; metadata = fleet_metadata secret }

-- The reply of `Reserve` as `reserve` hands it on: `_lease`, or a raise.
abbrev pub lease_or_raise : Reply LeaseMessage → Result Lease
lease_or_raise (reply msg) = ok (lease_of msg)
lease_or_raise (failed e) = reply_or_raise (failed e)
lease_or_raise (broke e) = reply_or_raise (broke e)

module _ {W : Type 0} where
  unfoldable pub reserve :
      FleetBackend W → String → String → ℤ → ℤ → ℤ → String → W → Result Lease × W
  reserve b policy domain wants has used axis w =
      let (answer, w') =
        b.stub
          (record {
            policy = policy;
            domain = domain;
            wants = wants;
            has = has;
            used = used;
            axis = axis_of axis;
          })
          b.metadata w in
      (lease_or_raise answer, w')

-- `LeasedLimiter`, less the backend, which each call is given.
pub record LeasedLimiter : Type 0 where
  pub policy : String
  pub domain : String
  pub batch : ℤ
  pub window_coupled : Bool
  pub spender : Option LeaseSpender

-- `__init__`, and so `FleetBackend.leased`.
unfoldable pub leased : String → String → ℤ → Bool → Result LeasedLimiter
leased policy domain batch window_coupled =
    if ltb_ℤ batch (pos 1)
    then err value_error
    else ok (record {
      policy = policy;
      domain = domain;
      batch = batch;
      window_coupled = window_coupled;
      spender = none;
    })

abbrev pub max_rounds : ℕ
max_rounds = 1024

-- How a round of the loop in `check` ends: with what `check` returns or raises, or with another round.
pub data RoundEnd (W : Type 0) : Type 0 where
  done : Result Decision → LeasedLimiter → W → RoundEnd W
  again : LeasedLimiter → W → RoundEnd W

-- Leaves the loop, or goes on with it.
unfoldable pub next_round :
    {W : Type 0}
    → RoundEnd W
    → (LeasedLimiter → W → Option (Result Decision) × LeasedLimiter × W)
    → Option (Result Decision) × LeasedLimiter × W
next_round (done r l w) rest = (some r, l, w)
next_round (again l w) rest = rest l w

-- `if self._spender is None: self._spender = LeaseSpender(…)`
unfoldable pub spender_for : LeasedLimiter → Lease → LeaseSpender
spender_for l lease = elim l.spender [
  | none ↦ new_spender lease.limit (max_ℤ (pos 1) lease.expiry_ms) l.window_coupled
  | some s ↦ s
]

-- What follows the `reserve` of a round.
unfoldable pub take_lease : {W : Type 0} → LeasedLimiter → Result Lease → W → RoundEnd W
unfolding granted denied_decision spender_for new_spender apply_lease
take_lease l (err e) w = done (err e) l w
take_lease l (ok lease) w =
    let s = spender_for l lease in
    if granted lease
    then again
        (record l {
          spender =
              some (
                apply_lease s (record { capacity = lease.capacity; expires_at = lease.expiry_ms }));
        })
        w
    else done (ok (denied_decision lease)) (record l { spender = some s }) w

module _ {W : Type 0} (b : FleetBackend W) where
  -- The refresh of a round.
  unfoldable pub refresh : LeasedLimiter → ℤ → W → RoundEnd W
  refresh l cost w =
      let (answer, w') =
        reserve b l.policy l.domain (max_ℤ cost l.batch) (pos 0) (pos 0) "rate" w in
      take_lease l answer w'

  unfoldable pub after_spend :
      LeasedLimiter → ℤ → W → Result (Option Decision) × LeaseSpender → RoundEnd W
  after_spend l cost w (ok (some d), s) = done (ok d) (record l { spender = some s }) w
  after_spend l cost w (ok none, s) = refresh (record l { spender = some s }) cost w
  after_spend l cost w (err e, s) = done (err e) (record l { spender = some s }) w

  unfoldable pub spend_first : LeasedLimiter → ℤ → ℤ → W → Option LeaseSpender → RoundEnd W
  spend_first l cost ts w none = refresh l cost w
  spend_first l cost ts w (some s) = after_spend l cost w (spend s ts cost)

  -- The body of the loop.
  unfoldable pub round : LeasedLimiter → ℤ → ℤ → W → RoundEnd W
  unfolding spend_first after_spend
  round l cost ts w = spend_first l cost ts w l.spender

  -- `for _ in range(n)`; `none` when the rounds are used up.
  unfoldable pub rounds :
      ℕ → LeasedLimiter → ℤ → ℤ → W → Option (Result Decision) × LeasedLimiter × W
  unfolding next_round
  rounds zero l cost ts w = (none, l, w)
  rounds (suc n) l cost ts w = next_round (round l cost ts w) (λ l' w'. rounds n l' cost ts w')

  abbrev pub rounds_exceeded : ℤ → Result Decision
  rounds_exceeded cost = err (
      throttle_kit_error (
        text_append "Fleet lease refresh exceeded 1024 rounds for one request (cost="
          (text_append (str_int cost) ")")))

  abbrev pub or_exceeded : ℤ → Option (Result Decision) → Result Decision
  or_exceeded cost none = rounds_exceeded cost
  or_exceeded cost (some r) = r

  -- `ts` is `now`, or what the clock showed where no `now` was given.
  unfoldable pub check : LeasedLimiter → ℤ → ℤ → W → Result Decision × LeasedLimiter × W
  check l cost ts w =
      let (r, l', w') = rounds max_rounds l cost ts w in (or_exceeded cost r, l', w')
