-- ===== src/FleetAsync.antt =====
-- src/throttlekit/fleet_backend_async.py: `AsyncLeasedLimiter.check`, whose calls interleave where they
-- await `reserve`. Between two awaits a call runs without others; the limiter and its spender are
-- shared, and are those of Fleet and Spender.
pub mod Interleaving
pub mod Backend
pub mod Alone
pub mod Fleet
mod Tests
use throttlekit_py.Base.{
  ℕ, zero, suc, String, text_append, str_int, ℤ, pos, ◌+ℤ◌, max_ℤ, ◌==◌, Option, none, some, ◌≡◌,
  if◌then◌else◌,
}
use throttlekit_py.Decision.{Decision}
use throttlekit_py.Errors.{Result, ok, err, throttle_kit_error}
use throttlekit_py.Spender.{LeaseSpender, apply_lease, spend}
use throttlekit_py.Fleet.{Lease, granted, denied_decision, LeasedLimiter, spender_for, max_rounds}

-- Where a run of a call stops: it returns or raises, or it awaits `reserve` of so many units, with so
-- many rounds of the loop to come after this one.
pub data Stop : Type 0 where
  finished : Result Decision → Stop
  waiting : ℕ → ℤ → Stop

abbrev rounds_exceeded : ℤ → Result Decision
rounds_exceeded cost = err (
    throttle_kit_error (
      text_append "Fleet lease refresh exceeded 1024 rounds for one request (cost="
        (text_append (str_int cost) ")")))

unfoldable pub after_spend :
    ℕ → LeasedLimiter → ℤ → Result (Option Decision) × LeaseSpender → Stop × LeasedLimiter
after_spend n l cost (ok (some d), s) = (finished (ok d), record l { spender = some s })
after_spend n l cost (ok none, s) = (waiting n (max_ℤ cost l.batch), record l { spender = some s })
after_spend n l cost (err e, s) = (finished (err e), record l { spender = some s })

unfoldable pub spend_first : ℕ → LeasedLimiter → ℤ → ℤ → Option LeaseSpender → Stop × LeasedLimiter
unfolding after_spend
spend_first n l cost ts none = (waiting n (max_ℤ cost l.batch), l)
spend_first n l cost ts (some s) = after_spend n l cost (spend s ts cost)

-- From the head of the loop, with so many rounds to come, to the next stop.
unfoldable pub run_loop : ℕ → LeasedLimiter → ℤ → ℤ → Stop × LeasedLimiter
unfolding spend_first
run_loop zero l cost ts = (finished (rounds_exceeded cost), l)
run_loop (suc n) l cost ts = spend_first n l cost ts l.spender

-- From the answer of `reserve` to the next stop.
unfoldable pub take_answer : ℕ → LeasedLimiter → ℤ → ℤ → Result Lease → Stop × LeasedLimiter
unfolding run_loop
take_answer n l cost ts (err e) = (finished (err e), l)
take_answer n l cost ts (ok lease) =
    let s = spender_for l lease in
    if granted lease
    then run_loop n
        (record l {
          spender =
              some (
                apply_lease s (record { capacity = lease.capacity; expires_at = lease.expiry_ms }));
        })
        cost ts
    else (finished (ok (denied_decision lease)), record l { spender = some s })

-- A call that awaits its lease.
pub record Call : Type 0 where
  pub cost : ℤ
  pub ts : ℤ
  pub rounds_left : ℕ

-- The limiter, the calls that await, by number, and the accounts: the units of the calls that were
-- allowed from the spender, and the units granted.
pub record System : Type 0 where
  pub limiter : LeasedLimiter
  pub calls : ℕ → Option Call
  pub served : ℤ
  pub leased : ℤ

abbrev pub call_of : ℤ → ℤ → Stop → Option Call
call_of cost ts (finished r) = none
call_of cost ts (waiting n wants) = some (record { cost = cost; ts = ts; rounds_left = n })

-- The units that a call may use when it has ended so.
abbrev pub used : ℤ → Stop → ℤ
used cost (finished (ok d)) = if d.allowed then cost else pos 0
used cost (finished (err e)) = pos 0
used cost (waiting n wants) = pos 0

abbrev pub units : Result Lease → ℤ
units (ok lease) = if granted lease then lease.capacity else pos 0
units (err e) = pos 0

-- Call `i` has come to a stop.
abbrev pub settle : ℕ → ℤ → ℤ → ℤ → Stop × LeasedLimiter → System → System
settle i cost ts granted_units (stop, l) s = record {
  limiter = l;
  calls = λ j. if i == j then call_of cost ts stop else s.calls j;
  served = s.served +ℤ used cost stop;
  leased = s.leased +ℤ granted_units;
}

pub data Step (s : System) : System → Type 0 where
  begins :
      (i : ℕ) (cost ts : ℤ)
      → s.calls i ≡ none
      → Step s (settle i cost ts (pos 0) (run_loop max_rounds s.limiter cost ts) s)
  resumes :
      (i : ℕ) (call : Call) (answer : Result Lease)
      → s.calls i ≡ some call
      → Step s (
          settle i call.cost call.ts
            (units answer)
            (take_answer call.rounds_left s.limiter call.cost call.ts answer)
            s)
  -- A cancelled call raises at its await, and changes nothing.
  is_cancelled :
      (i : ℕ) (call : Call)
      → s.calls i ≡ some call
      → Step s (record s { calls = λ j. if i == j then none else s.calls j })

pub data Reach (s : System) : System → Type 0 where
  here : Reach s s
  next_step : {t u : System} → Reach s t → Step t u → Reach s u
