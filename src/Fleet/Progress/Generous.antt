-- ===== src/Fleet/Progress/Generous.antt =====
-- `LeasedLimiter.check` against a service that grants what is asked
-- (src/throttlekit/fleet_backend.py).
use throttlekit_py.Base.{
  ℕ, suc, ℤ, pos, ◌≤ℤ◌, ◌<ℤ◌, max_ℤ, +ℤ_parts, max_ℤ_parts, true, Option, none, some, ◌≢◌, ◌⊎◌, inl,
  inr, arith, ◌≡◌, refl,
}
use throttlekit_py.Decision.{Decision}
use throttlekit_py.Errors.{Exn, Result, ok, err}
use throttlekit_py.Grpc.{Reply, reply, failed, broke}
use throttlekit_py.Spender.{LeaseSpender, discard_rolled, spend, new_spender, apply_lease}
use throttlekit_py.Fleet.{
  LeaseMessage, lease_of, lease_or_raise, granted, ReserveRequest, Metadata, FleetBackend,
  LeasedLimiter, RoundEnd, done, again, spender_for, take_lease, reserve, refresh, after_spend,
  spend_first, round, next_round, rounds, or_exceeded, check,
}
use throttlekit_py.Spender.Branches.{spend_allows}
use throttlekit_py.Spender.History.{spend_pays}
use throttlekit_py.Fleet.Rounds.{credits_of, balance}
use throttlekit_py.Fleet.Progress.{refresh_request}

-- A grant of all the units that were asked, good at `ts`.
abbrev pub IsFull : ℤ → ℤ → Reply LeaseMessage → Type 0
IsFull ts wants (reply msg) = (wants ≤ℤ msg.capacity) × (ts <ℤ msg.expiry_ms)
IsFull ts wants (failed e) = ⊥
IsFull ts wants (broke e) = ⊥

module _ {W : Type 0} (b : FleetBackend W) (ts cost : ℤ) where
  -- The limiter can serve the cost.
  abbrev CanServe : Option LeaseSpender → Type 0
  CanServe none = ⊥
  CanServe (some s) = cost ≤ℤ (discard_rolled s ts).credits

  -- The loop goes on in the world `w`, and the limiter can serve the cost.
  abbrev Refilled : W → RoundEnd W → Type 0
  Refilled w (done r l' w') = ⊥
  Refilled w (again l' w') = (w' ≡ w) × CanServe l'.spender

  take_lease-Refilled :
      (l : LeasedLimiter) (answer : Reply LeaseMessage) (w : W)
      → pos 0 <ℤ cost
      → pos 0 ≤ℤ balance l
      → IsFull ts (max_ℤ cost l.batch) answer
      → Refilled w (take_lease l (lease_or_raise answer) w)
  unfolding take_lease granted spender_for new_spender apply_lease lease_of discard_rolled
  take_lease-Refilled l (reply msg) w positive held full = ground (
    arith,
    max_ℤ_parts cost l.batch,
    +ℤ_parts (pos 0) msg.capacity,
    +ℤ_parts (credits_of l.spender) msg.capacity,
  )
  take_lease-Refilled l (failed e) w positive held full = absurd full
  take_lease-Refilled l (broke e) w positive held full = absurd full

  -- The world after the one `Reserve` of a refresh.
  abbrev pub refreshed : LeasedLimiter → W → W
  refreshed l w = (b.stub (refresh_request l cost) b.metadata w).1

  refresh-Refilled :
      (l : LeasedLimiter) (w : W)
      → pos 0 <ℤ cost
      → pos 0 ≤ℤ balance l
      → ((r : ReserveRequest) (m : Metadata) (v : W) → IsFull ts r.wants (b.stub r m v).0)
      → Refilled (refreshed l w) (refresh b l cost w)
  unfolding refresh reserve
  refresh-Refilled l w positive held full =
      let answer : Reply LeaseMessage × W = b.stub (refresh_request l cost) b.metadata w in
      take_lease-Refilled l answer.0 answer.1 positive held
        (full (refresh_request l cost) b.metadata w)

  -- The caller is allowed, in the world `w`.
  abbrev Allowed : W → Option (Result Decision) × LeasedLimiter × W → Type 0
  Allowed w (none, l', w') = ⊥
  Allowed w (some (err e), l', w') = ⊥
  Allowed w (some (ok d), l', w') = (d.allowed ≡ true) × (w' ≡ w)

  abbrev AllowedIn : W → RoundEnd W → Type 0
  AllowedIn w (done (ok d) l' w') = (d.allowed ≡ true) × (w' ≡ w)
  AllowedIn w (done (err e) l' w') = ⊥
  AllowedIn w (again l' w') = ⊥

  spend_first-AllowedIn :
      (l : LeasedLimiter) (w : W) (o : Option LeaseSpender)
      → pos 0 <ℤ cost
      → CanServe o
      → AllowedIn w (spend_first b l cost ts w o)
  unfolding spend_first after_spend spend
  spend_first-AllowedIn l w none positive can = absurd can
  spend_first-AllowedIn l w (some s) positive can = ground arith

  -- A round serves, or refills with one call.
  abbrev ServesOrRefills : LeasedLimiter → W → RoundEnd W → Type 0
  ServesOrRefills l w e = AllowedIn w e ⊎ Refilled (refreshed l w) e

  spend_raises_not : (s s' : LeaseSpender) (e : Exn) → pos 0 <ℤ cost → spend s ts cost ≢ (err e, s')
  unfolding spend
  spend_raises_not s s' e positive h = ground arith

  after_spend-ServesOrRefills :
      (l : LeasedLimiter) (s : LeaseSpender) (w : W)
      → pos 0 <ℤ cost
      → pos 0 ≤ℤ s.credits
      → ((r : ReserveRequest) (m : Metadata) (v : W) → IsFull ts r.wants (b.stub r m v).0)
      → (e : Result (Option Decision) × LeaseSpender) → spend s ts cost ≡ e
      → ServesOrRefills l w (after_spend b l cost w e)
  unfolding after_spend
  after_spend-ServesOrRefills l s w positive held full (ok (some d), s') eq =
      inl ((spend_allows s s' ts cost d eq).0, refl)
  after_spend-ServesOrRefills l s w positive held full (ok none, s') eq =
      let paid = rw eq at (spend_pays s ts cost held) in
      inr (refresh-Refilled (record l { spender = some s' }) w positive paid.0 full)
  after_spend-ServesOrRefills l s w positive held full (err e, s') eq =
      absurd (spend_raises_not s s' e positive eq)

  round-ServesOrRefills :
      (l : LeasedLimiter) (w : W) (o : Option LeaseSpender)
      → l.spender ≡ o
      → pos 0 <ℤ cost
      → pos 0 ≤ℤ credits_of o
      → ((r : ReserveRequest) (m : Metadata) (v : W) → IsFull ts r.wants (b.stub r m v).0)
      → ServesOrRefills l w (spend_first b l cost ts w o)
  unfolding spend_first
  round-ServesOrRefills l w none e positive held full =
      inr (refresh-Refilled l w positive (rw e (omega arith)) full)
  round-ServesOrRefills l w (some s) e positive held full =
      after_spend-ServesOrRefills l s w positive held full (spend s ts cost) refl

  next_round-Allowed :
      (w : W) (e : RoundEnd W)
      (rest : LeasedLimiter → W → Option (Result Decision) × LeasedLimiter × W)
      → AllowedIn w e
      → Allowed w (next_round e rest)
  unfolding next_round
  next_round-Allowed w (done (ok d) l' w') rest a = a
  next_round-Allowed w (done (err e) l' w') rest a = absurd a
  next_round-Allowed w (again l' w') rest a = absurd a

  -- The second round is the last.
  second_round :
      (w : W) (e : RoundEnd W) (n : ℕ)
      → pos 0 <ℤ cost
      → Refilled w e
      → Allowed w (next_round e (λ l' w'. rounds b (suc n) l' cost ts w'))
  unfolding next_round rounds round
  second_round w (done r l' w') n positive f = absurd f
  second_round w (again l' w') n positive f = rw (← f.0) (
      next_round-Allowed w' (spend_first b l' cost ts w' l'.spender) _
        (spend_first-AllowedIn l' w' l'.spender positive f.1))

  rounds-Allowed :
      (l : LeasedLimiter) (w : W) (n : ℕ)
      → pos 0 <ℤ cost
      → pos 0 ≤ℤ balance l
      → ((r : ReserveRequest) (m : Metadata) (v : W) → IsFull ts r.wants (b.stub r m v).0)
      → Allowed w (rounds b (suc (suc n)) l cost ts w)
        ⊎ Allowed (refreshed l w) (rounds b (suc (suc n)) l cost ts w)
  unfolding rounds round
  rounds-Allowed l w n positive held full =
      elim (round-ServesOrRefills l w l.spender refl positive held full) [
        | inl a ↦ inl (next_round-Allowed w _ _ a)
        | inr f ↦ inr (second_round (refreshed l w) _ n positive f)
      ]

  -- A `check` answers with an allow, in the given world.
  abbrev pub AllowsIn : W → Result Decision × LeasedLimiter × W → Type 0
  AllowsIn w (ok d, l', w') = (d.allowed ≡ true) × (w' ≡ w)
  AllowsIn w (err e, l', w') = ⊥

  or_exceeded-AllowsIn :
      (w : W) (out : Option (Result Decision) × LeasedLimiter × W)
      → Allowed w out
      → AllowsIn w (or_exceeded b cost out.0, out.1, out.2)
  or_exceeded-AllowsIn w (none, l', w') a = absurd a
  or_exceeded-AllowsIn w (some (err e), l', w') a = absurd a
  or_exceeded-AllowsIn w (some (ok d), l', w') a = a

  -- Against a service that grants all that is asked, good by the client's clock, a check of a positive
  -- cost by a client without a debt of credits is allowed after one `Reserve` at most: the world is as
  -- it was, or as that one call left it.
  pub generous_check_allows :
      (l : LeasedLimiter) (w : W)
      → pos 0 <ℤ cost
      → pos 0 ≤ℤ balance l
      → ((r : ReserveRequest) (m : Metadata) (v : W) → IsFull ts r.wants (b.stub r m v).0)
      → AllowsIn w (check b l cost ts w) ⊎ AllowsIn (refreshed l w) (check b l cost ts w)
  unfolding check
  generous_check_allows l w positive held full = elim (rounds-Allowed l w 1022 positive held full) [
    | inl a ↦ inl (or_exceeded-AllowsIn w _ a)
    | inr a ↦ inr (or_exceeded-AllowsIn (refreshed l w) _ a)
  ]
