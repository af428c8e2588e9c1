-- ===== src/FleetAsync/Tests.antt =====
-- Two first checks of one limiter that await at once, and the theorem about them.
use throttlekit_py.Base.{ℕ, suc, some, pos, ◌+ℤ◌, ◌-ℤ◌, max_ℤ, true, none, ◌≡◌, refl, arith}
use throttlekit_py.Errors.{ok}
use throttlekit_py.Spender.{apply_lease, new_spender, spend}
use throttlekit_py.Grpc.{reply}
use throttlekit_py.Fleet.{
  ReserveStub, new_fleet_backend, check, Lease, granted, spender_for, max_rounds,
}
use throttlekit_py.FleetAsync.{
  run_loop, take_answer, Call, System, settle, begins, resumes, Reach, here, next_step,
}
use throttlekit_py.FleetAsync.Backend.{new_async_backend, check_alone}
use throttlekit_py.FleetAsync.Alone.{check_alone-check}
use throttlekit_py.FleetAsync.Interleaving.{Covered, interleaved_calls-Covered}

abbrev start : System
start = record {
  limiter = record {
    policy = "api";
    domain = "";
    batch = pos 5;
    window_coupled = true;
    spender = none;
  };
  calls = λ i. none;
  served = pos 0;
  leased = pos 0;
}

abbrev five : Lease
five = record {
  capacity = pos 5;
  expiry_ms = pos 1000;
  refresh_interval_ms = pos 995;
  safe_capacity = pos 5;
  retry_after_ms = pos 0;
  limit = pos 10;
}

abbrev first : Call
first = record { cost = pos 3; ts = pos 5; rounds_left = 1023 }

abbrev second : Call
second = record { cost = pos 2; ts = pos 6; rounds_left = 1023 }

abbrev one_waits : System
one_waits =
    settle 0 (pos 3) (pos 5) (pos 0) (run_loop max_rounds start.limiter (pos 3) (pos 5)) start

abbrev both_wait : System
both_wait =
    settle 1 (pos 2) (pos 6) (pos 0) (run_loop max_rounds one_waits.limiter (pos 2) (pos 6))
      one_waits

abbrev one_served : System
one_served =
    settle 1 (pos 2) (pos 6) (pos 5) (take_answer 1023 both_wait.limiter (pos 2) (pos 6) (ok five))
      both_wait

abbrev both_served : System
both_served =
    settle 0 (pos 3) (pos 5) (pos 5) (take_answer 1023 one_served.limiter (pos 3) (pos 5) (ok five))
      one_served

both_ran : Reach start both_served
unfolding run_loop take_answer granted spender_for new_spender apply_lease spend ◌+ℤ◌ ◌-ℤ◌ max_ℤ
both_ran =
    next_step
      (next_step
        (next_step (next_step here (begins 0 (pos 3) (pos 5) refl)) (begins 1 (pos 2) (pos 6) refl))
        (resumes 1 second (ok five) refl))
      (resumes 0 first (ok five) refl)

-- The later call is served first; of the ten units, five are used.
five_used : (both_served.served ≡ pos 5) × (both_served.leased ≡ pos 10)
unfolding run_loop take_answer granted spender_for new_spender apply_lease spend ◌+ℤ◌ ◌-ℤ◌ max_ℤ
five_used = (refl, refl)

interleaved_calls-Covered_example : Covered both_served
unfolding ◌+ℤ◌
interleaved_calls-Covered_example = interleaved_calls-Covered both_ran (omega arith, omega arith)

-- A service that counts its calls and grants five units.
abbrev five_each : ReserveStub ℕ
five_each request metadata calls = (
  reply (record {
    capacity = pos 5;
    expiry_ms = pos 1000;
    refresh_interval_ms = pos 995;
    safe_capacity = pos 5;
    retry_after_ms = pos 0;
    limit = pos 10;
  }),
  suc calls,
)

check_alone-check_example :
    check_alone (new_async_backend five_each (some "hush")) start.limiter (pos 3) (pos 5) 0
    ≡ some (check (new_fleet_backend five_each (some "hush")) start.limiter (pos 3) (pos 5) 0)
check_alone-check_example =
    check_alone-check five_each (some "hush") start.limiter (pos 3) (pos 5) 0
