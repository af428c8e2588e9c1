-- ===== src/Fleet/Progress.antt =====
-- How the loop of `LeasedLimiter.check` ends (src/throttlekit/fleet_backend.py), by what the
-- service grants.
pub mod Stale
pub mod Generous
use throttlekit_py.Base.{
  ℕ, zero, suc, ◌+◌, ℤ, pos, ◌+ℤ◌, ◌-ℤ◌, ◌≤ℤ◌, ◌<ℤ◌, max_ℤ, int_laws, +ℤ_parts, max_ℤ_parts,
  eq_of_parts, true, false, Bool-cases, ap, Option, none, some, ◌⊎◌, inl, inr, arith, ◌≡◌, refl,
}
use mathlib.Core.Path.{subst}
use throttlekit_py.Decision.{Decision}
use throttlekit_py.Errors.{Exn, Result, ok, err}
use throttlekit_py.Grpc.{Reply, reply, failed, broke}
use throttlekit_py.Spender.{LeaseSpender, discard_rolled, spend, new_spender, apply_lease}
use throttlekit_py.Spender.Branches.{spend_allows}
use throttlekit_py.Fleet.{
  LeaseMessage, lease_of, lease_or_raise, granted, denied_decision, axis_of, ReserveRequest,
  ReserveStub, Metadata, FleetBackend, LeasedLimiter, RoundEnd, done, again, spender_for,
  take_lease, reserve, refresh, after_spend, spend_first, round, next_round, rounds, max_rounds,
  or_exceeded, check,
}

-- The credits that a check at `ts` can use: those of a rolled window are discarded.
abbrev pub usable_of : Option LeaseSpender → ℤ → ℤ
usable_of none ts = pos 0
usable_of (some s) ts = (discard_rolled s ts).credits

abbrev pub usable : LeasedLimiter → ℤ → ℤ
usable l ts = usable_of l.spender ts

-- A grant that is good at `ts`: it has not run out by the client's clock. (A capacity of zero or
-- less is a refusal.)
abbrev pub IsLive : ℤ → Reply LeaseMessage → Type 0
IsLive ts (reply msg) = (msg.capacity ≤ℤ pos 0) ⊎ (ts <ℤ msg.expiry_ms)
IsLive ts (failed e) = Unit
IsLive ts (broke e) = Unit

-- What a check may raise: only what `reserve` makes of a reply of the service to its own request. A decision
-- is an allow, or the denial of a lease without units in such a reply.
abbrev pub ComesFrom : {W : Type 0} → FleetBackend W → ReserveRequest → Result Decision → Type 0
ComesFrom {W} b request (ok d) =
    (d.allowed ≡ true)
    ⊎ ((w : W) × (msg : LeaseMessage) × ((b.stub request b.metadata w).0 ≡ reply msg)
        × (d ≡ denied_decision (lease_of msg))
        × (msg.capacity ≤ℤ pos 0))
ComesFrom {W} b request (err e) = (w : W) × (lease_or_raise (b.stub request b.metadata w).0 ≡ err e)

-- A round is the last one, or leaves at least `floor + 1` units to use.
abbrev Gains : {W : Type 0} → ℤ → ℤ → RoundEnd W → Type 0
Gains ts floor (done r l w) = Unit
Gains ts floor (again l w) = floor +ℤ pos 1 ≤ℤ usable l ts

-- The spender of a limiter, once it has been asked at `ts`.
spend_refused :
    (s s' : LeaseSpender) (ts cost : ℤ)
    → spend s ts cost ≡ (ok none, s')
    → (s'.credits ≡ (discard_rolled s ts).credits) × ((discard_rolled s ts).credits <ℤ cost)
unfolding spend
spend_refused s s' ts cost h = ground arith

take_lease-Gains :
    {W : Type 0} (l : LeasedLimiter) (answer : Reply LeaseMessage) (ts floor : ℤ) (w : W)
    → IsLive ts answer
    → ((msg : LeaseMessage) → floor ≤ℤ (spender_for l (lease_of msg)).credits)
    → Gains ts floor (take_lease l (lease_or_raise answer) w)
unfolding take_lease granted apply_lease lease_of discard_rolled
take_lease-Gains l (reply msg) ts floor w live held = ground (
  arith,
  held msg,
  +ℤ_parts (spender_for l (lease_of msg)).credits msg.capacity,
  +ℤ_parts floor (pos 1),
)
take_lease-Gains l (failed e) ts floor w live held = tt
take_lease-Gains l (broke e) ts floor w live held = tt

-- The request of a refresh.
abbrev pub refresh_request : LeasedLimiter → ℤ → ReserveRequest
refresh_request l cost = record {
  policy = l.policy;
  domain = l.domain;
  wants = max_ℤ cost l.batch;
  has = pos 0;
  used = pos 0;
  axis = axis_of "rate";
}

not_granted : (msg : LeaseMessage) → granted (lease_of msg) ≡ false → msg.capacity ≤ℤ pos 0
unfolding granted lease_of
not_granted msg e = ground arith

spend_positive :
    (s s' : LeaseSpender) (ts cost : ℤ) (e : Exn)
    → pos 0 <ℤ cost
    → spend s ts cost ≡ (err e, s')
    → ⊥
unfolding spend
spend_positive s s' ts cost e positive h = ground arith

module _ {W : Type 0} (b : FleetBackend W) where
  refresh-Gains :
      (l : LeasedLimiter) (cost ts floor : ℤ) (w : W)
      → ((r : ReserveRequest) (m : Metadata) (v : W) → IsLive ts (b.stub r m v).0)
      → ((msg : LeaseMessage) → floor ≤ℤ (spender_for l (lease_of msg)).credits)
      → Gains ts floor (refresh b l cost w)
  unfolding refresh reserve
  refresh-Gains l cost ts floor w live held =
      let answer : Reply LeaseMessage × W = b.stub (refresh_request l cost) b.metadata w in
      take_lease-Gains l answer.0 ts floor answer.1 (live (refresh_request l cost) b.metadata w)
        held

  -- A round ends the check, or the credits were short of the cost and have grown.
  abbrev Nears : ℤ → ℤ → LeasedLimiter → RoundEnd W → Type 0
  Nears cost ts l (done r l' w) = Unit
  Nears cost ts l (again l' w) = (usable l ts +ℤ pos 1 ≤ℤ usable l' ts) × (usable l ts <ℤ cost)

  nears :
      (cost ts floor : ℤ) (l : LeasedLimiter) (e : RoundEnd W)
      → usable l ts ≡ floor
      → floor <ℤ cost
      → Gains ts floor e
      → Nears cost ts l e
  nears cost ts floor l (done r l' w) same short g = tt
  nears cost ts floor l (again l' w) same short g = rw same (g, short)

  after_spend-Nears :
      (l : LeasedLimiter) (s : LeaseSpender) (cost ts : ℤ) (w : W)
      → ((r : ReserveRequest) (m : Metadata) (v : W) → IsLive ts (b.stub r m v).0)
      → usable l ts ≡ usable_of (some s) ts
      → (e : Result (Option Decision) × LeaseSpender) → spend s ts cost ≡ e
      → Nears cost ts l (after_spend b l cost w e)
  unfolding after_spend
  after_spend-Nears l s cost ts w live same (ok (some d), s') eq = tt
  after_spend-Nears l s cost ts w live same (err e, s') eq = tt
  after_spend-Nears l s cost ts w live same (ok none, s') eq =
      unfold spender_for in
      let (kept, short) = spend_refused s s' ts cost eq in
      nears cost ts (usable_of (some s) ts) l _ same short (
        refresh-Gains (record l { spender = some s' }) cost ts (usable_of (some s) ts) w live
          (λ msg. rw kept (omega arith)))

  spend_first-Nears :
      (l : LeasedLimiter) (cost ts : ℤ) (w : W)
      → ((r : ReserveRequest) (m : Metadata) (v : W) → IsLive ts (b.stub r m v).0)
      → pos 0 <ℤ cost
      → (o : Option LeaseSpender) → l.spender ≡ o
      → Nears cost ts l (spend_first b l cost ts w o)
  unfolding spend_first spender_for new_spender
  spend_first-Nears l cost ts w live positive none e =
      nears cost ts (pos 0) l _ (rw e) positive
        (refresh-Gains l cost ts (pos 0) w live (λ msg. rw e (omega arith)))
  spend_first-Nears l cost ts w live positive (some s) e =
      after_spend-Nears l s cost ts w live (rw e) (spend s ts cost) refl

  -- The round ends the check with an answer to the request, or goes on with a limiter that makes the same.
  abbrev EndsWell : ℤ → ReserveRequest → RoundEnd W → Type 0
  EndsWell cost request (done r l w) = ComesFrom b request r
  EndsWell cost request (again l w) = refresh_request l cost ≡ request

  take_lease-EndsWell :
      (l : LeasedLimiter) (cost : ℤ) (v w : W) (answer : Reply LeaseMessage)
      → (b.stub (refresh_request l cost) b.metadata v).0 ≡ answer
      → EndsWell cost (refresh_request l cost) (take_lease l (lease_or_raise answer) w)
  unfolding take_lease
  take_lease-EndsWell l cost v w (reply msg) e = elim (Bool-cases (granted (lease_of msg))) [
    | inl g ↦ rw g refl
    | inr g ↦ rw g (inr (v, msg, e, refl, not_granted msg g))
  ]
  take_lease-EndsWell l cost v w (failed x) e = (v, ap lease_or_raise e)
  take_lease-EndsWell l cost v w (broke x) e = (v, ap lease_or_raise e)

  refresh-EndsWell :
      (l : LeasedLimiter) (cost : ℤ) (w : W)
      → EndsWell cost (refresh_request l cost) (refresh b l cost w)
  unfolding refresh reserve
  refresh-EndsWell l cost w = take_lease-EndsWell l cost w _ _ refl

  after_spend-EndsWell :
      (l : LeasedLimiter) (s : LeaseSpender) (cost ts : ℤ) (w : W)
      → pos 0 <ℤ cost
      → (e : Result (Option Decision) × LeaseSpender) → spend s ts cost ≡ e
      → EndsWell cost (refresh_request l cost) (after_spend b l cost w e)
  unfolding after_spend
  after_spend-EndsWell l s cost ts w positive (ok (some d), s') eq =
      inl (spend_allows s s' ts cost d eq).0
  after_spend-EndsWell l s cost ts w positive (ok none, s') eq = refresh-EndsWell _ cost w
  after_spend-EndsWell l s cost ts w positive (err e, s') eq =
      absurd (spend_positive s s' ts cost e positive eq)

  spend_first-EndsWell :
      (l : LeasedLimiter) (cost ts : ℤ) (w : W) (o : Option LeaseSpender)
      → pos 0 <ℤ cost
      → EndsWell cost (refresh_request l cost) (spend_first b l cost ts w o)
  unfolding spend_first
  spend_first-EndsWell l cost ts w none positive = refresh-EndsWell l cost w
  spend_first-EndsWell l cost ts w (some s) positive =
      after_spend-EndsWell l s cost ts w positive (spend s ts cost) refl

  abbrev Answers : ReserveRequest → Option (Result Decision) × LeasedLimiter × W → Type 0
  Answers request out = (r : Result Decision) × (out.0 ≡ some r) × ComesFrom b request r

  next_round-Answers :
      (l : LeasedLimiter) (cost ts : ℤ) (request : ReserveRequest) (e : RoundEnd W)
      (rest : LeasedLimiter → W → Option (Result Decision) × LeasedLimiter × W)
      → Nears cost ts l e
      → EndsWell cost request e
      → ((l' : LeasedLimiter) (w' : W)
          → usable l ts +ℤ pos 1 ≤ℤ usable l' ts
          → usable l ts <ℤ cost
          → refresh_request l' cost ≡ request
          → Answers request (rest l' w'))
      → Answers request (next_round e rest)
  unfolding next_round
  next_round-Answers l cost ts request (done r l' w') rest near well go = (r, refl, well)
  next_round-Answers l cost ts request (again l' w') rest near well go = go l' w' near.0 near.1 well

  rounds-Answers :
      (n : ℕ) (l : LeasedLimiter) (cost ts : ℤ) (request : ReserveRequest) (w : W)
      → ((r : ReserveRequest) (m : Metadata) (v : W) → IsLive ts (b.stub r m v).0)
      → pos 0 <ℤ cost
      → cost ≤ℤ usable l ts +ℤ pos n
      → refresh_request l cost ≡ request
      → Answers request (rounds b (suc n) l cost ts w)
  unfolding rounds round
  rounds-Answers zero l cost ts request w live positive enough same =
      next_round-Answers l cost ts request _ _
        (spend_first-Nears l cost ts w live positive l.spender refl)
        (subst (λ r. EndsWell cost r (spend_first b l cost ts w l.spender)) same
          (spend_first-EndsWell l cost ts w l.spender positive))
        (λ l' w' more short same'. absurd (omega int_laws))
  rounds-Answers (suc n) l cost ts request w live positive enough same =
      next_round-Answers l cost ts request _ _
        (spend_first-Nears l cost ts w live positive l.spender refl)
        (subst (λ r. EndsWell cost r (spend_first b l cost ts w l.spender)) same
          (spend_first-EndsWell l cost ts w l.spender positive))
        (λ l' w' more short same'.
          rounds-Answers n l' cost ts request w' live positive (omega int_laws) same')

  -- The bound on the rounds is never met while what the service grants is good by the client's clock: for a
  -- positive cost of at most 1023, with no debt of credits, the loop ends within the 1024 rounds, and `check`
  -- gives what it ends with. That is an allow, or the denial of a lease without units that the service has
  -- sent in reply to this limiter's request, or the exception that `reserve` makes of such a reply.
  pub check_answers :
      (l : LeasedLimiter) (cost ts : ℤ) (w : W)
      → ((r : ReserveRequest) (m : Metadata) (v : W) → IsLive ts (b.stub r m v).0)
      → pos 0 <ℤ cost
      → cost ≤ℤ pos 1023
      → pos 0 ≤ℤ usable l ts
      → (r : Result Decision) × ((rounds b max_rounds l cost ts w).0 ≡ some r)
        × ((check b l cost ts w).0 ≡ r)
        × ComesFrom b (refresh_request l cost) r
  unfolding check
  check_answers l cost ts w live positive bound held =
      let (r, e, well) =
        rounds-Answers 1023 l cost ts (refresh_request l cost) w live positive (omega int_laws)
          refl in
      (r, e, rw e, well)
