-- ===== src/FleetAsync/Backend.antt =====
-- src/throttlekit/fleet_backend_async.py: `AsyncFleetBackend`, and a call of `AsyncLeasedLimiter.check`
-- with the service that answers it. An awaited RPC is one step of the state `W` of the world.
use throttlekit_py.Base.{
  ℕ, zero, suc, String, ℤ, pos, ltb_ℤ, same_text, Bool, Option, none, some, if◌then◌else◌,
}
use throttlekit_py.Decision.{Decision}
use throttlekit_py.Errors.{Result, ok, err, value_error}
use throttlekit_py.Fleet.{
  Lease, axis_of, lease_or_raise, ReserveStub, Metadata, LeasedLimiter, max_rounds,
}
use throttlekit_py.FleetAsync.{Stop, finished, waiting, run_loop, take_answer}

pub record AsyncFleetBackend (W : Type 0) : Type 0 where
  pub stub : ReserveStub W
  pub metadata : Metadata

-- `(("x-fleet-secret", secret),) if secret else None`
unfoldable pub async_metadata : Option String → Metadata
async_metadata none = none
async_metadata (some secret) = if same_text secret "" then none else some ("x-fleet-secret", secret)

-- `__init__`, the stub of the channel given.
unfoldable pub new_async_backend :
    {W : Type 0} → ReserveStub W → Option String → AsyncFleetBackend W
unfolding async_metadata
new_async_backend stub secret = record { stub = stub; metadata = async_metadata secret }

-- `__init__` of `AsyncLeasedLimiter`, and so `AsyncFleetBackend.leased`.
unfoldable pub async_leased : String → String → ℤ → Bool → Result LeasedLimiter
async_leased policy domain batch window_coupled =
    if ltb_ℤ batch (pos 1)
    then err value_error
    else ok (record {
      policy = policy;
      domain = domain;
      batch = batch;
      window_coupled = window_coupled;
      spender = none;
    })

module _ {W : Type 0} (b : AsyncFleetBackend W) where
  unfoldable pub async_reserve : String → String → ℤ → ℤ → ℤ → String → W → Result Lease × W
  async_reserve policy domain wants has used axis w =
      let (answer, w') =
        b.stub
          (record {
            policy = policy;
            domain = domain;
            wants = wants;
            has = has;
            used = used;
            axis = axis_of axis;
          })
          b.metadata w in
      (lease_or_raise answer, w')

  -- A call from a stop on, when no other call of the limiter runs at its awaits, and at most so many
  -- awaits more; `none` when it awaits again.
  unfoldable pub run_alone :
      ℕ → Stop × LeasedLimiter → ℤ → ℤ → W → Option (Result Decision × LeasedLimiter × W)
  run_alone n (finished r, l) cost ts w = some (r, l, w)
  run_alone zero (waiting left wants, l) cost ts w = none
  run_alone (suc n) (waiting left wants, l) cost ts w =
      let (answer, w') = async_reserve l.policy l.domain wants (pos 0) (pos 0) "rate" w in
      run_alone n (take_answer left l cost ts answer) cost ts w'

  -- `check` alone, with the clock read.
  unfoldable pub check_alone :
      LeasedLimiter → ℤ → ℤ → W → Option (Result Decision × LeasedLimiter × W)
  unfolding run_alone
  check_alone l cost ts w = run_alone max_rounds (run_loop max_rounds l cost ts) cost ts w
