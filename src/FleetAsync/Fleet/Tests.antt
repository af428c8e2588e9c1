-- ===== src/FleetAsync/Fleet/Tests.antt =====
-- Two async clients of a service with ten units: one is served, the other is cancelled while its reply is
-- on the way.
use Prim.Native.Nat.{min}
use throttlekit_py.Base.{
  ℕ, ◌+◌, ◌-◌, ℤ, pos, pos_part, ◌+ℤ◌, ◌-ℤ◌, ◌≤ℤ◌, max_ℤ, int_laws, true, none, [], ◌∷◌, refl,
  arith,
}
use throttlekit_py.Grpc.{reply}
use throttlekit_py.Fleet.{ReserveStub, granted, lease_of, spender_for, axis_of}
use throttlekit_py.Fleet.Rounds.{Accounts}
use throttlekit_py.Spender.{apply_lease, new_spender, spend}
use throttlekit_py.FleetAsync.{run_loop, take_answer, Call, System}
use throttlekit_py.FleetAsync.Backend.{AsyncFleetBackend, async_reserve}
use throttlekit_py.FleetAsync.Fleet.{
  nth, put, drop_at, Flight, Fleet, forget, begun, resumed, asked, begins, serves, delivers, loses,
  cancels, Reach, here, next_step,
}
use throttlekit_py.FleetAsync.Fleet.Budget.{total_served, async_fleet_within_budget}

-- The world is the number of units granted.
abbrev ten_units : ReserveStub ℕ
ten_units r m n = (
  reply (record {
    capacity = pos (min (pos_part r.wants) (10 - n));
    expiry_ms = pos 1000;
    refresh_interval_ms = pos 0;
    safe_capacity = pos 0;
    retry_after_ms = pos 500;
    limit = pos 10;
  }),
  n + min (pos_part r.wants) (10 - n),
)

abbrev door : AsyncFleetBackend ℕ
door = record { stub = ten_units; metadata = none }

granted_nonneg : (n : ℕ) → pos 0 ≤ℤ pos n
granted_nonneg n = omega arith

granted_counts :
    (n wants : ℕ)
    → pos (min n 10) +ℤ pos (min wants (10 - n)) ≤ℤ pos (min (n + min wants (10 - n)) 10)
granted_counts n wants = omega int_laws

abbrev ten_accounts : Accounts ten_units
ten_accounts = record {
  issued = λ n. pos (min n 10);
  grants_nonneg = λ r m n. granted_nonneg (min (pos_part r.wants) (10 - n));
  grants_counted = λ r m n. granted_counts n (pos_part r.wants);
}

budget_kept : (n : ℕ) → pos (min n 10) ≤ℤ pos 10
budget_kept n = omega arith

abbrev new_client : System
new_client = record {
  limiter = record {
    policy = "api";
    domain = "";
    batch = pos 5;
    window_coupled = true;
    spender = none;
  };
  calls = λ i. none;
  served = pos 0;
  leased = pos 0;
}

abbrev idle : Fleet ℕ
idle = record { clients = new_client ∷ new_client ∷ []; flights = []; world = 0 }

abbrev asking : ℤ → System
asking cost = begun 0 cost (pos 5) new_client

abbrev first_call : Call
first_call = record { cost = pos 3; ts = pos 5; rounds_left = 1023 }

abbrev second_call : Call
second_call = record { cost = pos 6; ts = pos 5; rounds_left = 1023 }

abbrev answer_to : Call → ℕ → Flight
answer_to call n = record {
  client = 0;
  call = 0;
  answer = (asked door new_client.limiter call n).0;
}

abbrev one_served : System
one_served = resumed 0 first_call (answer_to first_call 0).answer (asking (pos 3))

abbrev final : Fleet ℕ
final = record { clients = one_served ∷ forget 0 (asking (pos 6)) ∷ []; flights = []; world = 10 }

run : Reach door idle final
unfolding nth put drop_at run_loop take_answer async_reserve granted lease_of spender_for
    new_spender apply_lease spend ◌+ℤ◌ ◌-ℤ◌ max_ℤ axis_of
run =
    next_step
      (next_step
        (next_step
          (next_step
            (next_step
              (next_step (next_step here (begins 0 0 new_client (pos 3) (pos 5) refl refl))
                (begins 1 0 new_client (pos 6) (pos 5) refl refl))
              (serves 0 0 (asking (pos 3)) first_call refl refl))
            (serves 1 0 (asking (pos 6)) second_call refl refl))
          (cancels 1 0 (asking (pos 6)) second_call refl refl))
        (delivers 1 (answer_to first_call 0) (asking (pos 3)) first_call refl refl refl))
      (loses 0)

async_fleet_within_budget_example : total_served final.clients +ℤ pos (min 0 10) ≤ℤ pos 10
async_fleet_within_budget_example =
    async_fleet_within_budget door ten_accounts (pos 10) budget_kept (refl, refl, (refl, refl, tt))
      refl run
