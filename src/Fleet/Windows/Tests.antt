-- ===== src/Fleet/Windows/Tests.antt =====
-- Two clients in the window from 500 to 1000, of which one has three units left from the window before.
use throttlekit_py.Base.{
  ℕ, ◌+◌, pos, ◌+ℤ◌, ◌-ℤ◌, ◌≤ℤ◌, ◌<ℤ◌, max_ℤ, int_laws, true, none, some, List, [], ◌∷◌, ◌≡◌, refl,
  arith,
}
use throttlekit_py.Grpc.{reply}
use throttlekit_py.Spender.{LeaseSpender, spend, new_spender, apply_lease}
use throttlekit_py.Fleet.{
  LeaseMessage, FleetBackend, LeasedLimiter, lease_of, granted, spender_for, take_lease, reserve,
  refresh, round,
}
use throttlekit_py.Fleet.Rounds.{Accounts}
use throttlekit_py.Fleet.Budget.{Turn, take_turn, take_turns}
use throttlekit_py.Fleet.Windows.{GrantsAfter}
use throttlekit_py.Fleet.Windows.Clients.{AllRolled, AllInWindow, window_not_overspent}

-- Two units until 1000.
abbrev lease : LeaseMessage
lease = record {
  capacity = pos 2;
  expiry_ms = pos 1000;
  refresh_interval_ms = pos 0;
  safe_capacity = pos 2;
  retry_after_ms = pos 7;
  limit = pos 10;
}

-- The state is the number of units granted.
abbrev by_two : FleetBackend ℕ
by_two = record { stub = λ r m n. (reply lease, n + 2); metadata = none }

counted : (n : ℕ) → pos n +ℤ pos 2 ≤ℤ pos (n + 2)
counted n = omega int_laws

two_units : pos 0 ≤ℤ pos 2
two_units = omega arith

abbrev accounts : Accounts by_two.stub
accounts = record {
  issued = pos;
  grants_nonneg = λ r m n. two_units;
  grants_counted = λ r m n. counted n;
}

later : pos 500 <ℤ pos 1000
later = omega arith

abbrev window : GrantsAfter by_two.stub (pos 500) (λ n. Unit)
window = record { grants_later = λ r m n inside positive. later }

abbrev left_over : LeaseSpender
left_over = record {
  limit = pos 10;
  ttl_ms = pos 500;
  window_coupled = true;
  credits = pos 3;
  expires_at = some (pos 500);
}

abbrev idle : LeasedLimiter
idle = record {
  policy = "api";
  domain = "acme";
  batch = pos 2;
  window_coupled = true;
  spender = none;
}

abbrev clients : List LeasedLimiter
clients = record idle { spender = some left_over } ∷ idle ∷ []

abbrev turns : List Turn
turns =
    record { client = 0; cost = pos 1; ts = pos 600 }
    ∷ record { client = 1; cost = pos 1; ts = pos 600 }
    ∷ record { client = 0; cost = pos 1; ts = pos 601 }
    ∷ []

clients-AllRolled : AllRolled (pos 500) clients
clients-AllRolled = (((refl, (refl, omega arith)), refl), (((refl, tt), refl), tt))

turns-AllInWindow : AllInWindow by_two (pos 500) (λ n. Unit) turns clients 0
turns-AllInWindow = (omega arith, tt, (omega arith, tt, (omega arith, tt, tt)))

window_not_overspent_example :
    let (used, ls, granted_units) = take_turns by_two turns clients 0 in
    used +ℤ pos 0 ≤ℤ pos granted_units
window_not_overspent_example =
    window_not_overspent by_two accounts (pos 500) (λ n. Unit) window turns clients 0
      clients-AllRolled turns-AllInWindow

-- The three units left over are not spent.
spends_one :
    let (used, ls, granted_units) = take_turns by_two turns clients 0 in
    (used ≡ pos 1) × (granted_units ≡ 4)
unfolding take_turns take_turn round refresh reserve take_lease granted spender_for new_spender
    apply_lease lease_of spend ◌+ℤ◌ ◌-ℤ◌ max_ℤ
spends_one = (refl, refl)
