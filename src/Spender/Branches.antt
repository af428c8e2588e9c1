-- ===== src/Spender/Branches.antt =====
-- What one call of `LeaseSpender.spend` does (src/throttlekit/lease_spender.py).
use throttlekit_py.Base.{
  ℤ, pos, ◌+ℤ◌, ◌-ℤ◌, ◌≤ℤ◌, ◌<ℤ◌, max_ℤ, +ℤ_parts, -ℤ_parts, eq_of_parts, true, some, none, ◌≡◌,
  arith,
}
use throttlekit_py.Decision.{Decision}
use throttlekit_py.Errors.{ok}
use throttlekit_py.Spender.{LeaseSpender, spend}

-- A spend that is served answers with an allow under the spender's limit that advises no wait; the
-- credits left are what it reports as remaining, are zero or more, and with the cost added are at
-- most the credits before. The boundary stays.
pub spend_allows :
    (s s' : LeaseSpender) (now cost : ℤ) (d : Decision)
    → spend s now cost ≡ (ok (some d), s')
    → (d.allowed ≡ true)
      × (d.limit ≡ s.limit)
      × (d.retry_after_ms ≡ pos 0)
      × (d.remaining ≡ s'.credits)
      × (pos 0 ≤ℤ s'.credits)
      × (s'.credits +ℤ cost ≤ℤ s.credits)
      × (s'.expires_at ≡ s.expires_at)
unfolding spend max_ℤ
spend_allows s s' now cost d h = ground (
  arith,
  -ℤ_parts s.credits cost,
  +ℤ_parts s'.credits cost,
  eq_of_parts (pos 0) (s.credits -ℤ cost),
)

-- A window-coupled spender with a grant serves only before the boundary of the grant, and reports
-- that boundary as the reset.
spend_window :
    (s s' : LeaseSpender) (now cost boundary : ℤ) (d : Decision)
    → s.window_coupled ≡ true
    → s.expires_at ≡ some boundary
    → spend s now cost ≡ (ok (some d), s')
    → (now <ℤ boundary) × (d.reset_at ≡ boundary)
unfolding spend
spend_window s s' now cost boundary d coupled e h = ground arith

-- At or after the boundary a window-coupled spender with credits discards them all and asks for a
-- refresh.
pub spend_rolled :
    (s : LeaseSpender) (now cost boundary : ℤ)
    → s.window_coupled ≡ true
    → s.expires_at ≡ some boundary
    → boundary ≤ℤ now
    → pos 0 <ℤ cost
    → pos 0 ≤ℤ s.credits
    → spend s now cost ≡ (ok none, record s { credits = pos 0 })
unfolding spend
spend_rolled s now cost boundary coupled e past positive nonneg =
    ground (arith, eq_of_parts s.credits (pos 0))
