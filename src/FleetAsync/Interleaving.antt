-- ===== src/FleetAsync/Interleaving.antt =====
-- The units of src/throttlekit/fleet_backend_async.py, however its calls interleave.
use throttlekit_py.Base.{
  ℕ, zero, suc, ℤ, pos, ◌+ℤ◌, ◌≤ℤ◌, int_laws, true, Bool-cases, Option, none, some, arith, ◌≡◌,
  refl, inl, inr,
}
use throttlekit_py.Decision.{Decision}
use throttlekit_py.Errors.{Result, ok, err}
use throttlekit_py.Spender.{LeaseSpender, spend, apply_lease}
use throttlekit_py.Spender.Branches.{spend_allows}
use throttlekit_py.Spender.History.{spend_pays}
use throttlekit_py.Fleet.{Lease, granted, denied_decision, LeasedLimiter, spender_for, max_rounds}
use throttlekit_py.Fleet.Rounds.{balance, spender_for-credits}
use throttlekit_py.FleetAsync.{
  Stop, after_spend, spend_first, run_loop, take_answer, used, units, System, settle, Step, begins,
  resumes, is_cancelled, Reach, here, next_step,
}

-- What a run uses and leaves is covered by the credits before it and the units granted for it.
abbrev pub StopCovered : ℤ → LeasedLimiter → ℤ → Stop × LeasedLimiter → Type 0
StopCovered cost l new (stop, l') =
    (pos 0 ≤ℤ balance l') × (used cost stop +ℤ balance l' ≤ℤ balance l +ℤ new)

after_spend-StopCovered :
    (n : ℕ) (l : LeasedLimiter) (s : LeaseSpender) (cost ts : ℤ)
    → pos 0 ≤ℤ s.credits
    → (e : Result (Option Decision) × LeaseSpender) → spend s ts cost ≡ e
    → StopCovered cost (record l { spender = some s }) (pos 0) (after_spend n l cost e)
unfolding after_spend
after_spend-StopCovered n l s cost ts h (ok (some d), s') eq =
    let paid = rw eq at (spend_pays s ts cost h) in
    let allows = spend_allows s s' ts cost d eq in (paid.0, rw allows.0 (omega int_laws))
after_spend-StopCovered n l s cost ts h (ok none, s') eq =
    let paid = rw eq at (spend_pays s ts cost h) in (paid.0, omega int_laws)
after_spend-StopCovered n l s cost ts h (err e, s') eq =
    let paid = rw eq at (spend_pays s ts cost h) in (paid.0, omega int_laws)

spend_first-StopCovered :
    (n : ℕ) (l : LeasedLimiter) (cost ts : ℤ) (o : Option LeaseSpender)
    → l.spender ≡ o
    → pos 0 ≤ℤ balance l
    → StopCovered cost l (pos 0) (spend_first n l cost ts o)
unfolding spend_first
spend_first-StopCovered n l cost ts none e h = (h, omega int_laws)
spend_first-StopCovered n l cost ts (some s) e h =
    let held : pos 0 ≤ℤ s.credits = rw e at h in
    rw e (after_spend-StopCovered n l s cost ts held (spend s ts cost) refl)

pub run_loop-StopCovered :
    (n : ℕ) (l : LeasedLimiter) (cost ts : ℤ)
    → pos 0 ≤ℤ balance l
    → StopCovered cost l (pos 0) (run_loop n l cost ts)
unfolding run_loop
run_loop-StopCovered zero l cost ts h = (h, omega int_laws)
run_loop-StopCovered (suc n) l cost ts h = spend_first-StopCovered n l cost ts l.spender refl h

granted_positive : (lease : Lease) → granted lease ≡ true → pos 0 ≤ℤ lease.capacity
unfolding granted
granted_positive lease g = ground arith

booked_credits :
    (l : LeasedLimiter) (lease : Lease)
    → (apply_lease
        (spender_for l lease)
        (record { capacity = lease.capacity; expires_at = lease.expiry_ms })).credits
      ≡ balance l +ℤ lease.capacity
unfolding apply_lease
booked_credits l lease = rw (spender_for-credits l lease) refl

booked-StopCovered :
    (cost : ℤ) (l booked : LeasedLimiter) (new : ℤ) (out : Stop × LeasedLimiter)
    → balance booked ≡ balance l +ℤ new
    → StopCovered cost booked (pos 0) out
    → StopCovered cost l new out
booked-StopCovered cost l booked new (stop, l') e (held, bound) =
    (held, let moved = rw e at bound in omega int_laws)

pub take_answer-StopCovered :
    (n : ℕ) (l : LeasedLimiter) (cost ts : ℤ) (answer : Result Lease)
    → pos 0 ≤ℤ balance l
    → StopCovered cost l (units answer) (take_answer n l cost ts answer)
unfolding take_answer denied_decision
take_answer-StopCovered n l cost ts (err e) h = (h, omega int_laws)
take_answer-StopCovered n l cost ts (ok lease) h = elim (Bool-cases (granted lease)) [
  | inl g ↦
      let s : LeaseSpender =
        apply_lease (spender_for l lease)
          (record { capacity = lease.capacity; expires_at = lease.expiry_ms }) in
      let booked : LeasedLimiter = record l { spender = some s } in
      let fact : s.credits ≡ balance l +ℤ lease.capacity = booked_credits l lease in
      let more : pos 0 ≤ℤ lease.capacity = granted_positive lease g in
      let nonneg : pos 0 ≤ℤ s.credits = rw fact (omega int_laws) in
      rw g (
        booked-StopCovered cost l booked lease.capacity (run_loop n booked cost ts) fact
          (run_loop-StopCovered n booked cost ts nonneg))
  | inr g ↦ rw g (rw (spender_for-credits l lease) (h, omega int_laws))
]

-- The calls of a limiter have used, and it holds, no more than was granted.
abbrev pub Covered : System → Type 0
Covered s = (pos 0 ≤ℤ balance s.limiter) × (s.served +ℤ balance s.limiter ≤ℤ s.leased)

settle-Covered :
    (s : System) (i : ℕ) (cost ts new : ℤ) (out : Stop × LeasedLimiter)
    → Covered s
    → StopCovered cost s.limiter new out
    → Covered (settle i cost ts new out s)
settle-Covered s i cost ts new (stop, l) v c = (c.0, omega int_laws)

Step-Covered : {s t : System} → Step s t → Covered s → Covered t
Step-Covered {s} (begins i cost ts free) v =
    settle-Covered s i cost ts (pos 0) (run_loop max_rounds s.limiter cost ts) v
      (run_loop-StopCovered max_rounds s.limiter cost ts v.0)
Step-Covered {s} (resumes i call answer there) v =
    settle-Covered s i call.cost call.ts (units answer)
      (take_answer call.rounds_left s.limiter call.cost call.ts answer) v
      (take_answer-StopCovered call.rounds_left s.limiter call.cost call.ts answer v.0)
Step-Covered (is_cancelled i call there) v = v

-- However the calls of one limiter interleave at their awaits, and whichever are cancelled there: from
-- a state in which the units used and the credits are covered by the units granted, and the credits
-- are not negative, only such states are reached.
pub interleaved_calls-Covered : {s t : System} → Reach s t → Covered s → Covered t
interleaved_calls-Covered here v = v
interleaved_calls-Covered (next_step reached st) v =
    Step-Covered st (interleaved_calls-Covered reached v)
