-- ===== src/Spender/Tests.antt =====
-- The golden lease vectors of contract/golden-vectors.json, replayed, and each theorem about the
-- spender at an input.
use throttlekit_py.Base.{
  ℤ, pos, ◌+ℤ◌, ◌-ℤ◌, ◌≤ℤ◌, max_ℤ, true, false, Option, some, none, List, [], ◌∷◌, ◌≡◌, arith, refl,
}
use throttlekit_py.Decision.{Decision}
use throttlekit_py.Errors.{Result, ok, err}
use throttlekit_py.Spender.{LeaseGrant, LeaseSpender, new_spender, apply_lease, spend, reset}
use throttlekit_py.Spender.History.{Event, grants, spends, resets, play, granted, play_conserves}
use throttlekit_py.Spender.Windows.{late_grant_carries}

abbrev grant_of : ℤ → ℤ → Event
grant_of capacity expires_at = grants (record { capacity = capacity; expires_at = expires_at })

-- What a spend answers: the remaining units and the reset of its allow.
abbrev shown : Result (Option Decision) → Option (ℤ × ℤ)
shown (ok (some d)) = some (d.remaining, d.reset_at)
shown (ok none) = none
shown (err e) = none

replay : List Event → LeaseSpender → List (Option (ℤ × ℤ))
replay [] s = []
replay (grants g ∷ es) s = replay es (apply_lease s g)
replay (spends now cost ∷ es) s = let (reply, s') = spend s now cost in shown reply ∷ replay es s'
replay (resets ∷ es) s = replay es (reset s)

vector_window_coupled_discard :
    replay
      (grant_of (pos 5) (pos 1000)
        ∷ spends (pos 0) (pos 2)
        ∷ spends (pos 1000) (pos 1)
        ∷ grant_of (pos 5) (pos 2000)
        ∷ spends (pos 1000) (pos 1)
        ∷ spends (pos 2000) (pos 1)
        ∷ [])
      (new_spender (pos 5) (pos 1000) true)
    ≡ some (pos 3, pos 1000) ∷ none ∷ some (pos 4, pos 2000) ∷ none ∷ []
unfolding replay new_spender apply_lease spend ◌+ℤ◌ ◌-ℤ◌ max_ℤ
vector_window_coupled_discard = refl

vector_cost_above_capacity :
    replay
      (grant_of (pos 10) (pos 1000)
        ∷ spends (pos 0) (pos 4)
        ∷ spends (pos 0) (pos 6)
        ∷ spends (pos 0) (pos 1)
        ∷ grant_of (pos 5) (pos 1000)
        ∷ spends (pos 0) (pos 8)
        ∷ grant_of (pos 10) (pos 1000)
        ∷ spends (pos 0) (pos 8)
        ∷ spends (pos 0) (pos 8)
        ∷ [])
      (new_spender (pos 100) (pos 1000) true)
    ≡ some (pos 6, pos 1000)
      ∷ some (pos 0, pos 1000)
      ∷ none
      ∷ none
      ∷ some (pos 7, pos 1000)
      ∷ none
      ∷ []
unfolding replay new_spender apply_lease spend ◌+ℤ◌ ◌-ℤ◌ max_ℤ
vector_cost_above_capacity = refl

vector_carry_over_when_not_coupled :
    replay
      (grant_of (pos 5) (pos 1000)
        ∷ spends (pos 0) (pos 2)
        ∷ spends (pos 2000) (pos 1)
        ∷ spends (pos 2000) (pos 2)
        ∷ spends (pos 2000) (pos 1)
        ∷ [])
      (new_spender (pos 5) (pos 1000) false)
    ≡ some (pos 3, pos 1000) ∷ some (pos 2, pos 1000) ∷ some (pos 0, pos 1000) ∷ none ∷ []
unfolding replay new_spender apply_lease spend ◌+ℤ◌ ◌-ℤ◌ max_ℤ
vector_carry_over_when_not_coupled = refl

-- Three credits until 1000.
abbrev stocked : LeaseSpender
stocked = record {
  limit = pos 10;
  ttl_ms = pos 60;
  window_coupled = true;
  credits = pos 3;
  expires_at = some (pos 1000);
}

abbrev later_lease : LeaseGrant
later_lease = record { capacity = pos 4; expires_at = pos 2000 }

-- The allow for two of the three credits.
abbrev two_of_three : Decision
two_of_three = record {
  allowed = true;
  limit = pos 10;
  remaining = pos 1;
  reset_at = pos 1000;
  retry_after_ms = pos 0;
}

abbrev one_left : LeaseSpender
one_left = record stocked { credits = pos 1 }

spend-stocked : spend stocked (pos 5) (pos 2) ≡ (ok (some two_of_three), one_left)
unfolding spend ◌-ℤ◌ max_ℤ
spend-stocked = refl

-- The lease comes after the first window has rolled.
abbrev history : List Event
history =
    spends (pos 5) (pos 2)
    ∷ spends (pos 1000) (pos 1)
    ∷ grants later_lease
    ∷ spends (pos 1000) (pos 4)
    ∷ resets
    ∷ []

play_conserves_example :
    let (t, total) = play history stocked in
    (pos 0 ≤ℤ t.credits) × (total +ℤ t.credits ≤ℤ stocked.credits +ℤ granted history)
play_conserves_example = play_conserves history stocked (omega arith, tt) (omega arith)

late_grant_carries_example :
    (spend (apply_lease stocked later_lease) (pos 1500) (pos 3 +ℤ pos 4)).0
    ≡ ok (
        some (record {
          allowed = true;
          limit = pos 10;
          remaining = pos 0;
          reset_at = pos 2000;
          retry_after_ms = pos 0;
        }))
late_grant_carries_example =
    late_grant_carries stocked later_lease (pos 1500) (pos 1000) refl (omega arith) (omega arith)
      (omega arith) (omega arith)
