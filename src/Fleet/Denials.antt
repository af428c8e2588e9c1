-- ===== src/Fleet/Denials.antt =====
-- Where the answers of `LeasedLimiter.check` come from (src/throttlekit/fleet_backend.py).
use throttlekit_py.Base.{
  ℕ, zero, suc, ℤ, pos, ◌≤ℤ◌, true, false, Bool-cases, Option, none, some, ◌⊎◌, inl, inr, arith,
  ◌≡◌, refl,
}
use mathlib.Core.Path.{subst}
use throttlekit_py.Decision.{Decision}
use throttlekit_py.Errors.{Result, ok, err}
use throttlekit_py.Grpc.{Reply, reply, failed, broke}
use throttlekit_py.Spender.{LeaseSpender, spend}
use throttlekit_py.Spender.Branches.{spend_allows}
use throttlekit_py.Fleet.{
  LeaseMessage, lease_of, lease_or_raise, granted, denied_decision, ReserveRequest, FleetBackend,
  LeasedLimiter, RoundEnd, done, again, take_lease, reserve, refresh, after_spend, spend_first,
  round, next_round, rounds, max_rounds, or_exceeded, check,
}
use throttlekit_py.Fleet.Progress.{refresh_request}

module _ {W : Type 0} (b : FleetBackend W) where
  -- A lease of no units, sent in the reply to a `Reserve` that left the world as it is now, whose
  -- denial the decision is.
  pub record IsServerDenial (now : W) (d : Decision) : Type 0 where
    pub request : ReserveRequest
    pub before : W
    pub msg : LeaseMessage
    pub sent : b.stub request b.metadata before ≡ (reply msg, now)
    pub refused : msg.capacity ≤ℤ pos 0
    pub verbatim : d ≡ record {
      allowed = false;
      limit = msg.limit;
      remaining = pos 0;
      reset_at = msg.expiry_ms;
      retry_after_ms = msg.retry_after_ms;
    }

  -- An allow, or a denial of the service's.
  abbrev pub IsGenuine : W → Decision → Type 0
  IsGenuine w d = (d.allowed ≡ true) ⊎ IsServerDenial w d

  abbrev GenuineResult : W → Result Decision → Type 0
  GenuineResult w (ok d) = IsGenuine w d
  GenuineResult w (err e) = Unit

  abbrev GenuineRound : RoundEnd W → Type 0
  GenuineRound (done r l' w') = GenuineResult w' r
  GenuineRound (again l' w') = Unit

  abbrev GenuineLoop : Option (Result Decision) × LeasedLimiter × W → Type 0
  GenuineLoop (none, l, w) = Unit
  GenuineLoop (some r, l, w) = GenuineResult w r

  refused_lease :
      (l : LeasedLimiter) (request : ReserveRequest) (v w : W) (msg : LeaseMessage)
      → b.stub request b.metadata v ≡ (reply msg, w)
      → granted (lease_of msg) ≡ false
      → IsServerDenial w (denied_decision (lease_of msg))
  unfolding granted lease_of denied_decision
  refused_lease l request v w msg e g = record {
    request = request;
    before = v;
    msg = msg;
    sent = e;
    refused = ground arith;
    verbatim = refl;
  }

  take_lease-GenuineRound :
      (l : LeasedLimiter) (request : ReserveRequest) (v w : W) (answer : Reply LeaseMessage)
      → b.stub request b.metadata v ≡ (answer, w)
      → GenuineRound (take_lease l (lease_or_raise answer) w)
  unfolding take_lease
  take_lease-GenuineRound l request v w (reply msg) e = elim (Bool-cases (granted (lease_of msg))) [
    | inl g ↦ rw g tt
    | inr g ↦ rw g (inr (refused_lease l request v w msg e g))
  ]
  take_lease-GenuineRound l request v w (failed x) e = tt
  take_lease-GenuineRound l request v w (broke x) e = tt

  refresh-GenuineRound : (l : LeasedLimiter) (cost : ℤ) (w : W) → GenuineRound (refresh b l cost w)
  unfolding refresh reserve
  refresh-GenuineRound l cost w = take_lease-GenuineRound l (refresh_request l cost) w _ _ refl

  after_spend-GenuineRound :
      (l : LeasedLimiter) (s : LeaseSpender) (cost ts : ℤ) (w : W)
      (e : Result (Option Decision) × LeaseSpender)
      → spend s ts cost ≡ e
      → GenuineRound (after_spend b l cost w e)
  unfolding after_spend
  after_spend-GenuineRound l s cost ts w (ok (some d), s') eq =
      inl (spend_allows s s' ts cost d eq).0
  after_spend-GenuineRound l s cost ts w (ok none, s') eq = refresh-GenuineRound _ cost w
  after_spend-GenuineRound l s cost ts w (err x, s') eq = tt

  spend_first-GenuineRound :
      (l : LeasedLimiter) (cost ts : ℤ) (w : W) (o : Option LeaseSpender)
      → GenuineRound (spend_first b l cost ts w o)
  unfolding spend_first
  spend_first-GenuineRound l cost ts w none = refresh-GenuineRound l cost w
  spend_first-GenuineRound l cost ts w (some s) =
      after_spend-GenuineRound l s cost ts w (spend s ts cost) refl

  next_round-GenuineLoop :
      (e : RoundEnd W) (rest : LeasedLimiter → W → Option (Result Decision) × LeasedLimiter × W)
      → GenuineRound e
      → ((l : LeasedLimiter) (w : W) → GenuineLoop (rest l w))
      → GenuineLoop (next_round e rest)
  unfolding next_round
  next_round-GenuineLoop (done r l w) rest g go = g
  next_round-GenuineLoop (again l w) rest g go = go l w

  rounds-GenuineLoop :
      (n : ℕ) (l : LeasedLimiter) (cost ts : ℤ) (w : W) → GenuineLoop (rounds b n l cost ts w)
  unfolding rounds round
  rounds-GenuineLoop zero l cost ts w = tt
  rounds-GenuineLoop (suc n) l cost ts w =
      next_round-GenuineLoop _ _ (spend_first-GenuineRound l cost ts w l.spender)
        (λ l' w'. rounds-GenuineLoop n l' cost ts w')

  or_exceeded-GenuineResult :
      (out : Option (Result Decision) × LeasedLimiter × W) (cost : ℤ)
      → GenuineLoop out
      → GenuineResult out.2 (or_exceeded b cost out.0)
  or_exceeded-GenuineResult (none, l, w) cost g = tt
  or_exceeded-GenuineResult (some r, l, w) cost g = g

  -- The client never makes a denial up: each decision that `check` returns is an allow, or it is field
  -- for field the denial of a lease without units that the service sent in reply to the last call of
  -- the check: that call left the world as the check does.
  pub check-IsGenuine :
      (l l' : LeasedLimiter) (cost ts : ℤ) (w w' : W) (d : Decision)
      → check b l cost ts w ≡ (ok d, l', w')
      → IsGenuine w' d
  unfolding check
  check-IsGenuine l l' cost ts w w' d e =
      subst (λ out. GenuineResult out.2 out.0) e
        (or_exceeded-GenuineResult (rounds b max_rounds l cost ts w) cost
          (rounds-GenuineLoop max_rounds l cost ts w))
