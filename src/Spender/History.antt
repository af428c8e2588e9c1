-- ===== src/Spender/History.antt =====
-- Histories of grants, spends and resets of one `LeaseSpender`
-- (src/throttlekit/lease_spender.py), and what they serve in all.
use throttlekit_py.Base.{
  ℕ, zero, suc, ap, ◌-◌, ◌≤◌, ℤ, pos, ◌+ℤ◌, ◌-ℤ◌, ◌≤ℤ◌, ◌<ℤ◌, int_laws, -ℤ_parts, +ℤ_parts, some,
  none, Option, List, [], ◌∷◌, length, ◌≡◌, arith, refl,
}
use throttlekit_py.Decision.{Decision}
use throttlekit_py.Errors.{Result, ok, err}
use throttlekit_py.Spender.{LeaseGrant, LeaseSpender, apply_lease, spend, reset}

pub data Event : Type 0 where
  grants : LeaseGrant → Event
  -- The time and the cost.
  spends : ℤ → ℤ → Event
  resets : Event

-- What a reply served of the cost that was asked.
abbrev pub served : Result (Option Decision) → ℤ → ℤ
served (ok (some d)) cost = cost
served (ok none) cost = pos 0
served (err e) cost = pos 0

-- The spender after the events, and the units served in all.
pub play : List Event → LeaseSpender → LeaseSpender × ℤ
play [] s = (s, pos 0)
play (grants g ∷ es) s = play es (apply_lease s g)
play (spends now cost ∷ es) s =
    let (reply, s') = spend s now cost in
    let (t, total) = play es s' in (t, served reply cost +ℤ total)
play (resets ∷ es) s = play es (reset s)

abbrev pub granted : List Event → ℤ
granted [] = pos 0
granted (grants g ∷ es) = g.capacity +ℤ granted es
granted (spends now cost ∷ es) = granted es
granted (resets ∷ es) = granted es

-- No grant is negative, which is what the service promises of a capacity.
abbrev pub GrantsNonneg : List Event → Type 0
GrantsNonneg [] = Unit
GrantsNonneg (grants g ∷ es) = (pos 0 ≤ℤ g.capacity) × GrantsNonneg es
GrantsNonneg (spends now cost ∷ es) = GrantsNonneg es
GrantsNonneg (resets ∷ es) = GrantsNonneg es

-- One spend, refused ones included, serves no more than the credits fall by.
pub spend_pays :
    (s : LeaseSpender) (now cost : ℤ)
    → pos 0 ≤ℤ s.credits
    → (pos 0 ≤ℤ (spend s now cost).1.credits)
      × (served (spend s now cost).0 cost +ℤ (spend s now cost).1.credits ≤ℤ s.credits)
unfolding spend
spend_pays s now cost h = ground (
  arith,
  -ℤ_parts s.credits cost,
  +ℤ_parts cost (s.credits -ℤ cost),
  +ℤ_parts (pos 0) s.credits,
  +ℤ_parts (pos 0) (pos 0),
)

-- Whatever the order and the times of the grants, spends and resets, the units served and the
-- credits left are together at most the credits at the start and the capacities granted; and the
-- credits left are never negative.
pub play_conserves :
    (es : List Event) (s : LeaseSpender)
    → GrantsNonneg es
    → pos 0 ≤ℤ s.credits
    → let (t, total) = play es s in
      (pos 0 ≤ℤ t.credits) × (total +ℤ t.credits ≤ℤ s.credits +ℤ granted es)
unfolding play apply_lease reset
play_conserves [] s g h = omega int_laws
play_conserves (grants g ∷ es) s ok_grants h =
    let ih = play_conserves es (apply_lease s g) ok_grants.1 (omega int_laws) in omega int_laws
play_conserves (spends now cost ∷ es) s g h =
    let step = spend_pays s now cost h in
    let ih = play_conserves es (spend s now cost).1 g step.0 in omega int_laws
play_conserves (resets ∷ es) s g h =
    let ih = play_conserves es (reset s) g (omega int_laws) in omega int_laws

-- One unit spent at each of the times.
abbrev pub unit_spends : List ℤ → List Event
unit_spends [] = []
unit_spends (now ∷ times) = spends now (pos 1) ∷ unit_spends times

abbrev pub AllBefore : ℤ → List ℤ → Type 0
AllBefore boundary [] = Unit
AllBefore boundary (now ∷ times) = (now <ℤ boundary) × AllBefore boundary times

unit_spend_lem :
    (s : LeaseSpender) (now boundary : ℤ) (n : ℕ)
    → s.credits ≡ pos (suc n)
    → s.expires_at ≡ some boundary
    → now <ℤ boundary
    → (served (spend s now (pos 1)).0 (pos 1) ≡ pos 1)
      × ((spend s now (pos 1)).1.credits ≡ pos n)
      × ((spend s now (pos 1)).1.expires_at ≡ some boundary)
unfolding spend ◌-ℤ◌
unit_spend_lem s now boundary n c e before = ground arith

-- Credits are served in full: a spender with `n` credits and a boundary serves any `n` or fewer
-- unit spends before the boundary, each of them, and is left with the rest.
unit_spends_served :
    (times : List ℤ) (s : LeaseSpender) (boundary : ℤ) (n : ℕ)
    → s.credits ≡ pos n
    → s.expires_at ≡ some boundary
    → AllBefore boundary times
    → length times ≤ n
    → let (t, total) = play (unit_spends times) s in
      (total ≡ pos (length times)) × (t.credits ≡ pos (n - length times))
unfolding play
unit_spends_served [] s boundary n c e before h = (refl, ground arith)
unit_spends_served (now ∷ times) s boundary zero c e before h = absurd (omega arith)
unit_spends_served (now ∷ times) s boundary (suc n) c e before h =
    let (one, left, same) = unit_spend_lem s now boundary n c e before.0 in
    let (all, rest) =
      unit_spends_served times (spend s now (pos 1)).1 boundary n left same before.1
        (omega arith) in
    (rw (one, all) (omega int_laws), rw rest (ap pos (omega arith)))
