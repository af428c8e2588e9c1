-- ===== src/Service/Lifecycle/Tests.antt =====
-- Runs of two releases at once, and of two first admissions at once; and each theorem about the
-- interleavings at an input.
use throttlekit_py.Base.{ℕ, pos, lookup, insert, true, false, none, some, ◌≡◌, refl}
use throttlekit_py.Service.{AdmitResponse, decision_of}
use throttlekit_py.Service.Admission.{
  Admission, new_admission, new_pump, register, write, start_release,
}
use throttlekit_py.Service.Lifecycle.{
  System, put, client_at, put_client, misses, makes, registers, enters, sends, Reach, here,
  next_step, IsStart,
}
use throttlekit_py.Service.Lifecycle.Leases.{open_of, IsRenewable}
use throttlekit_py.Service.Lifecycle.Renewals.{pump_renews_held}

abbrev slot : AdmitResponse
slot = record {
  decision = record {
    allowed = true;
    limit = pos 2;
    remaining = pos 1;
    reset_at = pos 0;
    retry_after_ms = pos 0;
  };
  lease_id = "lease-1";
  lease_expires_at = pos 2000;
  binding_axis = "";
  policy_denied = false;
}

abbrev holder : Admission
holder = record {
  decision = record {
    allowed = true;
    limit = pos 2;
    remaining = pos 1;
    reset_at = pos 0;
    retry_after_ms = pos 0;
  };
  lease_id = "lease-1";
  lease_expires_at = pos 2000;
  binding_axis = "";
  policy_denied = false;
  heartbeat = true;
  released = false;
  reclaimed = false;
}

abbrev spent_holder : Admission
spent_holder = record holder { released = true }

abbrev start : System
start = record {
  next = 0;
  at = λ i. none;
  pumps = λ k. none;
  count = 0;
  making = 0;
  home = λ i. 0;
  found = λ i. 0;
  entered = λ i. 0;
  sent = λ i. 0;
}

start-IsStart : IsStart start
start-IsStart = record {
  no_admissions = λ i. refl;
  none_found = λ i. refl;
  none_entered = λ i. refl;
  none_sent = λ i. refl;
  no_pumps = λ k. refl;
}

-- `n` other threads have found `_pump` to be None when a thread sets it.
abbrev made : ℕ → System
made n = record start { pumps = put start.pumps 0 (some new_pump); count = 1; making = n }

abbrev registered : ℕ → System
registered n = record (made n) {
  next = 1;
  at = write start.at 0 (new_admission slot true);
  pumps = put (made n).pumps 0 (some (register slot.lease_id 0 new_pump));
  home = put start.home 0 0;
}

registered_at : new_admission slot true ≡ holder
unfolding new_admission decision_of
registered_at = refl

one_registered : Reach start (registered 0)
one_registered =
    next_step (next_step (next_step here (misses refl)) (makes 0 refl))
      (registers 0 new_pump slot refl refl)

lists_lease : lookup "lease-1" (open_of ((registered 0).pumps 0)) ≡ some 0
unfolding register new_pump insert lookup
lists_lease = refl

pump_renews_held_example : IsRenewable "lease-1" 0 ((registered 0).at 0)
pump_renews_held_example =
    pump_renews_held {s = start} {t = registered 0} "lease-1" 0 start-IsStart one_registered
      lists_lease

-- Two threads have found the admission not released.
abbrev both_in : System
both_in = record (registered 0) {
  found = put (put start.found 0 1) 0 2;
  entered = put (put start.entered 0 1) 0 2;
}

abbrev one_sent : System
one_sent = record (put_client 0 (start_release 0 holder (client_at 0 both_in)) both_in) {
  entered = put both_in.entered 0 1;
  sent = put both_in.sent 0 1;
}

abbrev both_sent : System
both_sent = record (put_client 0 (start_release 0 spent_holder (client_at 0 one_sent)) one_sent) {
  entered = put one_sent.entered 0 0;
  sent = put one_sent.sent 0 2;
}

-- A second thread sets `_pump` after the admission has been registered with the first pump; then the
-- admission is released.
abbrev two_made : System
two_made = record (registered 1) {
  pumps = put (registered 1).pumps 1 (some new_pump);
  count = 2;
  making = 0;
}

abbrev lost_entered : System
lost_entered = record two_made { found = put start.found 0 1; entered = put start.entered 0 1 }

abbrev lost_sent : System
lost_sent = record (put_client 1 (start_release 0 holder (client_at 1 lost_entered)) lost_entered) {
  entered = put lost_entered.entered 0 0;
  sent = put lost_entered.sent 0 1;
}

lost_reached : Reach start lost_sent
unfolding new_admission decision_of
lost_reached =
    next_step
      (next_step
        (next_step
          (next_step
            (next_step (next_step (next_step here (misses refl)) (misses refl)) (makes 1 refl))
            (registers 0 new_pump slot refl refl))
          (makes 0 refl))
        (enters 0 holder refl refl))
      (sends 0 0 holder refl refl)

-- The first pump still renews the lease.
lost_pump_renews :
    (lost_sent.sent 0 ≡ 1) × (lookup "lease-1" (open_of (lost_sent.pumps 0)) ≡ some 0)
unfolding register new_pump insert lookup
lost_pump_renews = (refl, refl)
