-- ===== src/Spender/Windows.antt =====
-- Leftover credits and the window of the next grant (src/throttlekit/lease_spender.py).
use throttlekit_py.Base.{
  ℤ, pos, ◌+ℤ◌, ◌-ℤ◌, ◌≤ℤ◌, ◌<ℤ◌, max_ℤ, int_laws, +ℤ_parts, -ℤ_parts, eq_of_parts, true, some,
  none, ◌≡◌, arith, refl,
}
use throttlekit_py.Errors.{ok}
use throttlekit_py.Spender.{LeaseGrant, LeaseSpender, apply_lease, spend}
use throttlekit_py.Spender.Branches.{spend_rolled}

-- If a window-coupled spender is asked at or after its boundary and then granted a lease, it holds
-- exactly the capacity of that lease: nothing of the old window is carried over.
refresh_after_roll :
    (s : LeaseSpender) (g : LeaseGrant) (now cost boundary : ℤ)
    → s.window_coupled ≡ true
    → s.expires_at ≡ some boundary
    → boundary ≤ℤ now
    → pos 0 <ℤ cost
    → pos 0 ≤ℤ s.credits
    → let t = apply_lease (spend s now cost).1 g in
      ((spend s now cost).0 ≡ ok none)
      × (t.credits ≡ g.capacity)
      × (t.expires_at ≡ some g.expires_at)
unfolding apply_lease
refresh_after_roll s g now cost boundary coupled e past positive nonneg =
    rw (spend_rolled s now cost boundary coupled e past positive nonneg)
      (refl, omega int_laws, refl)

-- If a lease of a later window is granted before the spender has been asked at or after the
-- boundary of its leftover credits, those credits are carried over: after that boundary and before
-- the new one the spender serves them together with the new capacity in one allow.
pub late_grant_carries :
    (s : LeaseSpender) (g : LeaseGrant) (now boundary : ℤ)
    → s.expires_at ≡ some boundary
    → boundary ≤ℤ now
    → now <ℤ g.expires_at
    → pos 0 <ℤ s.credits
    → pos 0 <ℤ g.capacity
    → (spend (apply_lease s g) now (s.credits +ℤ g.capacity)).0
      ≡ ok (
          some (record {
            allowed = true;
            limit = s.limit;
            remaining = pos 0;
            reset_at = g.expires_at;
            retry_after_ms = pos 0;
          }))
unfolding apply_lease spend max_ℤ
late_grant_carries s g now boundary e past open_window left capacity = ground (
  arith,
  +ℤ_parts s.credits g.capacity,
  -ℤ_parts (s.credits +ℤ g.capacity) (s.credits +ℤ g.capacity),
  eq_of_parts (pos 0) ((s.credits +ℤ g.capacity) -ℤ (s.credits +ℤ g.capacity)),
)
