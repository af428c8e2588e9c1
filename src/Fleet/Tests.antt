-- ===== src/Fleet/Tests.antt =====
-- `LeasedLimiter` against two concrete services, and each theorem about it at an input.
use Prim.Native.Nat.{min}
use throttlekit_py.Base.{
  ℕ, suc, ◌+◌, ◌-◌, ℤ, pos, pos_part, ◌+ℤ◌, ◌-ℤ◌, ◌≤ℤ◌, max_ℤ, int_laws, true, Option, none, some,
  List, [], ◌∷◌, ◌≡◌, refl, inr, ◌⊎◌, arith,
}
use throttlekit_py.Decision.{Decision}
use throttlekit_py.Errors.{Result, ok, err}
use throttlekit_py.Grpc.{reply}
use throttlekit_py.Spender.{spend, new_spender, apply_lease}
use throttlekit_py.Fleet.{
  LeaseMessage, ReserveStub, FleetBackend, LeasedLimiter, reserve, refresh, take_lease, granted,
  denied_decision, spender_for, lease_of, round, rounds, max_rounds, check, rounds_exceeded,
}
use throttlekit_py.Fleet.Rounds.{Accounts, balance, spent, Covered, check-Covered}
use throttlekit_py.Fleet.Budget.{Turn, take_turns, fleet_within_budget}
use throttlekit_py.Fleet.Progress.{ComesFrom, refresh_request, check_answers}
use throttlekit_py.Fleet.Progress.Stale.{stale_check_raises}
use throttlekit_py.Fleet.Progress.Generous.{AllowsIn, refreshed, generous_check_allows}
use throttlekit_py.Fleet.Denials.{IsGenuine, check-IsGenuine}

-- A lease of the units, good until the boundary, under the limit 10.
abbrev lease_until : ℕ → ℕ → LeaseMessage
lease_until units boundary = record {
  capacity = pos units;
  expiry_ms = pos boundary;
  refresh_interval_ms = pos 0;
  safe_capacity = pos units;
  retry_after_ms = pos 7;
  limit = pos 10;
}

-- A service with a budget of ten units; its state is the number granted.
abbrev meter : ReserveStub ℕ
meter r m n =
    let units = min (pos_part r.wants) (10 - n) in (reply (lease_until units 1000), n + units)

-- A service without a budget, whose leases have the given boundary.
abbrev fountain : ℕ → ReserveStub ℕ
fountain boundary r m n =
    let units = suc (pos_part r.wants) in (reply (lease_until units boundary), n + units)

abbrev metered : FleetBackend ℕ
metered = record { stub = meter; metadata = none }

abbrev flowing : ℕ → FleetBackend ℕ
flowing boundary = record { stub = fountain boundary; metadata = none }

le_zero_pos : (n : ℕ) → pos 0 ≤ℤ pos n
le_zero_pos n = omega arith

fountain_counts : (n wants : ℕ) → pos n +ℤ pos (suc wants) ≤ℤ pos (n + suc wants)
fountain_counts n wants = omega int_laws

meter_counts :
    (n wants : ℕ)
    → pos (min n 10) +ℤ pos (min wants (10 - n)) ≤ℤ pos (min (n + min wants (10 - n)) 10)
meter_counts n wants = omega int_laws

abbrev meter_accounts : Accounts meter
meter_accounts = record {
  issued = λ n. pos (min n 10);
  grants_nonneg = λ r m n. le_zero_pos (min (pos_part r.wants) (10 - n));
  grants_counted = λ r m n. meter_counts n (pos_part r.wants);
}

abbrev fountain_accounts : (boundary : ℕ) → Accounts (fountain boundary)
fountain_accounts boundary = record {
  issued = pos;
  grants_nonneg = λ r m n. le_zero_pos (suc (pos_part r.wants));
  grants_counted = λ r m n. fountain_counts n (pos_part r.wants);
}

abbrev fresh : LeasedLimiter
fresh = record {
  policy = "api";
  domain = "acme";
  batch = pos 4;
  window_coupled = true;
  spender = none;
}

-- Four units are leased, of which the check spends three; the next check of three refreshes.
abbrev show : Result Decision × LeasedLimiter × ℕ → Option (ℤ × ℤ) × ℤ × ℕ
show (ok d, l, n) = (some (d.remaining, d.reset_at), balance l, n)
show (err e, l, n) = (none, balance l, n)

check-fresh : show (check metered fresh (pos 3) (pos 5) 0) ≡ (some (pos 1, pos 1000), pos 1, 4)
unfolding check rounds round refresh reserve take_lease granted spender_for new_spender apply_lease
    lease_of spend ◌+ℤ◌ ◌-ℤ◌ max_ℤ
check-fresh = refl

-- The budget is gone: the denial of the service.
check_spent : show (check metered fresh (pos 3) (pos 5) 10) ≡ (some (pos 0, pos 1000), pos 0, 10)
unfolding check rounds round refresh reserve take_lease granted spender_for new_spender apply_lease
    lease_of denied_decision spend ◌+ℤ◌ ◌-ℤ◌ max_ℤ
check_spent = refl

check-Covered_example :
    let (r, l', w') = check metered fresh (pos 3) (pos 5) 0 in
    Covered metered meter_accounts fresh 0 (spent r (pos 3)) l' w'
check-Covered_example = check-Covered metered meter_accounts fresh (pos 3) (pos 5) 0 (omega arith)

abbrev clients : List LeasedLimiter
clients = fresh ∷ fresh ∷ []

-- The rounds of two clients' checks, interleaved.
abbrev turns : List Turn
turns =
    record { client = 0; cost = pos 3; ts = pos 5 }
    ∷ record { client = 1; cost = pos 6; ts = pos 5 }
    ∷ record { client = 0; cost = pos 3; ts = pos 5 }
    ∷ record { client = 1; cost = pos 6; ts = pos 6 }
    ∷ []

fleet_within_budget_example : (take_turns metered turns clients 0).0 +ℤ pos (min 0 10) ≤ℤ pos 10
fleet_within_budget_example =
    fleet_within_budget metered meter_accounts (pos 10) turns clients 0 (λ n. omega arith)
      (refl, (refl, tt))

check_answers_example :
    (r : Result Decision) × ((rounds metered max_rounds fresh (pos 3) (pos 5) 0).0 ≡ some r)
    × ((check metered fresh (pos 3) (pos 5) 0).0 ≡ r)
    × ComesFrom metered (refresh_request fresh (pos 3)) r
check_answers_example =
    check_answers metered fresh (pos 3) (pos 5) 0 (λ r m n. inr (omega arith)) (omega arith)
      (omega arith) (omega arith)

stale_check_raises_example :
    let (r, l', w') = check (flowing 500) fresh (pos 1) (pos 600) 0 in
    (r ≡ rounds_exceeded (flowing 500) (pos 1)) × (pos 0 +ℤ pos 1024 ≤ℤ pos w')
stale_check_raises_example =
    stale_check_raises (flowing 500) (fountain_accounts 500) (pos 600) fresh (pos 1) 0 refl tt
      (omega arith) (λ r m n. omega arith)

generous_check_allows_example :
    AllowsIn (flowing 500) (pos 5) (pos 3) 0 (check (flowing 500) fresh (pos 3) (pos 5) 0)
    ⊎ AllowsIn
        (flowing 500)
        (pos 5)
        (pos 3)
        (refreshed (flowing 500) (pos 5) (pos 3) fresh 0)
        (check (flowing 500) fresh (pos 3) (pos 5) 0)
generous_check_allows_example =
    generous_check_allows (flowing 500) (pos 5) (pos 3) fresh 0 (omega arith) (omega arith)
      (λ r m n. omega arith)

abbrev denial : Decision
denial = denied_decision (lease_of (lease_until 0 1000))

abbrev refused_once : LeasedLimiter
refused_once = record fresh {
  spender = some (new_spender (pos 10) (pos 1000) fresh.window_coupled);
}

check_denied : check metered fresh (pos 3) (pos 5) 10 ≡ (ok denial, refused_once, 10)
unfolding check rounds round refresh reserve take_lease granted spender_for new_spender apply_lease
    lease_of denied_decision spend ◌+ℤ◌ ◌-ℤ◌ max_ℤ
check_denied = refl

check-IsGenuine_example : IsGenuine metered 10 denial
check-IsGenuine_example =
    check-IsGenuine metered fresh refused_once (pos 3) (pos 5) 10 10 denial check_denied
