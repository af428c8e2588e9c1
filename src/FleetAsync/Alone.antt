-- ===== src/FleetAsync/Alone.antt =====
-- A call of the async limiter that runs alone, and the same call of the sync one.
use throttlekit_py.Base.{
  ℕ, zero, suc, String, ℤ, pos, max_ℤ, Bool-cases, Option, none, some, ◌≡◌, refl, inl, inr,
}
use throttlekit_py.Decision.{Decision}
use throttlekit_py.Errors.{Result, ok, err}
use throttlekit_py.Spender.{LeaseSpender, spend}
use throttlekit_py.Fleet.{
  Lease, granted, ReserveStub, Metadata, FleetBackend, new_fleet_backend, fleet_metadata,
  LeasedLimiter, take_lease, reserve, refresh, after_spend as sync_after_spend,
  spend_first as sync_spend_first, round, next_round, rounds, or_exceeded, check, max_rounds,
}
use throttlekit_py.FleetAsync.{waiting, after_spend, spend_first, run_loop, take_answer}
use throttlekit_py.FleetAsync.Backend.{
  AsyncFleetBackend, new_async_backend, async_metadata, async_reserve, run_alone, check_alone,
}

module _ {W : Type 0} (stub : ReserveStub W) (metadata : Metadata) where
  abbrev async_door : AsyncFleetBackend W
  async_door = record { stub = stub; metadata = metadata }

  abbrev sync_door : FleetBackend W
  sync_door = record { stub = stub; metadata = metadata }

  -- What the sync `check` gives when its loop has ended so.
  abbrev ended :
      ℤ → Option (Result Decision) × LeasedLimiter × W → Result Decision × LeasedLimiter × W
  ended cost (r, l, w) = (or_exceeded sync_door cost r, l, w)

  abbrev Agrees : ℕ → ℤ → ℤ → Type 0
  Agrees n cost ts =
      (l : LeasedLimiter) (w : W)
      → run_alone async_door n (run_loop n l cost ts) cost ts w
        ≡ some (ended cost (rounds sync_door n l cost ts w))

  take_answer-Agrees :
      (n : ℕ) (l : LeasedLimiter) (cost ts : ℤ) (answer : Result Lease) (w : W)
      → Agrees n cost ts
      → run_alone async_door n (take_answer n l cost ts answer) cost ts w
        ≡ some (
            ended cost
              (next_round (take_lease l answer w) (λ l' w'. rounds sync_door n l' cost ts w')))
  unfolding run_alone take_answer take_lease next_round
  take_answer-Agrees n l cost ts (err e) w agrees = refl
  take_answer-Agrees n l cost ts (ok lease) w agrees = elim (Bool-cases (granted lease)) [
    | inl g ↦ rw g (agrees _ w)
    | inr g ↦ rw g refl
  ]

  refresh-Agrees :
      (n : ℕ) (l : LeasedLimiter) (cost ts : ℤ) (w : W)
      → Agrees n cost ts
      → run_alone async_door (suc n) (waiting n (max_ℤ cost l.batch), l) cost ts w
        ≡ some (
            ended cost
              (next_round (refresh sync_door l cost w) (λ l' w'. rounds sync_door n l' cost ts w')))
  unfolding run_alone refresh reserve async_reserve
  refresh-Agrees n l cost ts w agrees =
      let (answer, w') =
        reserve sync_door l.policy l.domain (max_ℤ cost l.batch) (pos 0) (pos 0) "rate" w in
      take_answer-Agrees n l cost ts answer w' agrees

  after_spend-Agrees :
      (n : ℕ) (l : LeasedLimiter) (cost ts : ℤ) (w : W)
      (out : Result (Option Decision) × LeaseSpender)
      → Agrees n cost ts
      → run_alone async_door (suc n) (after_spend n l cost out) cost ts w
        ≡ some (
            ended cost (
              next_round
                (sync_after_spend sync_door l cost w out)
                (λ l' w'. rounds sync_door n l' cost ts w')))
  unfolding run_alone after_spend sync_after_spend next_round
  after_spend-Agrees n l cost ts w (ok (some d), s) agrees = refl
  after_spend-Agrees n l cost ts w (ok none, s) agrees =
      refresh-Agrees n (record l { spender = some s }) cost ts w agrees
  after_spend-Agrees n l cost ts w (err e, s) agrees = refl

  spend_first-Agrees :
      (n : ℕ) (l : LeasedLimiter) (cost ts : ℤ) (w : W) (o : Option LeaseSpender)
      → Agrees n cost ts
      → run_alone async_door (suc n) (spend_first n l cost ts o) cost ts w
        ≡ some (
            ended cost (
              next_round
                (sync_spend_first sync_door l cost ts w o)
                (λ l' w'. rounds sync_door n l' cost ts w')))
  unfolding spend_first sync_spend_first
  spend_first-Agrees n l cost ts w none agrees = refresh-Agrees n l cost ts w agrees
  spend_first-Agrees n l cost ts w (some s) agrees =
      after_spend-Agrees n l cost ts w (spend s ts cost) agrees

  run_loop-Agrees : (n : ℕ) (cost ts : ℤ) → Agrees n cost ts
  unfolding run_loop rounds round run_alone
  run_loop-Agrees zero cost ts l w = refl
  run_loop-Agrees (suc n) cost ts l w =
      spend_first-Agrees n l cost ts w l.spender (run_loop-Agrees n cost ts)

  check_alone_same :
      (l : LeasedLimiter) (cost ts : ℤ) (w : W)
      → check_alone async_door l cost ts w ≡ some (check sync_door l cost ts w)
  unfolding check_alone check
  check_alone_same l cost ts w = run_loop-Agrees max_rounds cost ts l w

-- With the same stub and secret, a call of the async limiter that runs alone comes to its end, with the
-- decision or exception, the limiter and the world that a call of the sync limiter ends with.
pub check_alone-check :
    {W : Type 0} (stub : ReserveStub W) (secret : Option String) (l : LeasedLimiter) (cost ts : ℤ)
    (w : W)
    → check_alone (new_async_backend stub secret) l cost ts w
      ≡ some (check (new_fleet_backend stub secret) l cost ts w)
unfolding new_async_backend new_fleet_backend async_metadata fleet_metadata
check_alone-check stub none l cost ts w = check_alone_same stub none l cost ts w
check_alone-check stub (some secret) l cost ts w =
    check_alone_same stub (async_metadata (some secret)) l cost ts w
