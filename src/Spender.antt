-- ===== src/Spender.antt =====
-- src/throttlekit/lease_spender.py: `LeaseGrant` and `LeaseSpender`. Costs, credits and times are
-- Python integers; the float costs that the class tolerates are left out.
pub mod Branches
pub mod History
pub mod Windows
mod Tests
use throttlekit_py.Base.{
  ℤ, pos, ◌+ℤ◌, ◌-ℤ◌, leb_ℤ, ltb_ℤ, max_ℤ, Bool, false, true, ◌&&◌, Option, none, some,
  if◌then◌else◌,
}
use throttlekit_py.Decision.{Decision}
use throttlekit_py.Errors.{Result, ok, err, value_error}

pub record LeaseGrant : Type 0 where
  pub capacity : ℤ
  pub expires_at : ℤ

pub record LeaseSpender : Type 0 where
  pub limit : ℤ
  pub ttl_ms : ℤ
  pub window_coupled : Bool
  pub credits : ℤ
  pub expires_at : Option ℤ

-- `__init__`
unfoldable pub new_spender : ℤ → ℤ → Bool → LeaseSpender
new_spender limit ttl_ms window_coupled = record {
  limit = limit;
  ttl_ms = ttl_ms;
  window_coupled = window_coupled;
  credits = pos 0;
  expires_at = none;
}

unfoldable pub require_cost : ℤ → Result (Unit {0})
require_cost cost = if leb_ℤ cost (pos 0) then err value_error else ok tt

unfoldable pub apply_lease : LeaseSpender → LeaseGrant → LeaseSpender
apply_lease s grant = record s {
  credits = s.credits +ℤ grant.capacity;
  expires_at = some grant.expires_at;
}

-- `self._expires_at is not None and now >= self._expires_at`
abbrev pub is_past : Option ℤ → ℤ → Bool
is_past none now = false
is_past (some boundary) now = leb_ℤ boundary now

-- The first `if` of `spend`.
unfoldable pub discard_rolled : LeaseSpender → ℤ → LeaseSpender
discard_rolled s now =
    if s.window_coupled && is_past s.expires_at now && ltb_ℤ (pos 0) s.credits
    then record s { credits = pos 0 }
    else s

abbrev pub or_else : Option ℤ → ℤ → ℤ
or_else none d = d
or_else (some a) d = a

-- The second `if` of `spend`.
unfoldable pub serve : LeaseSpender → ℤ → ℤ → Option Decision × LeaseSpender
serve s now cost =
    let left = s.credits -ℤ cost in
    if leb_ℤ cost s.credits
    then (
      some (record {
        allowed = true;
        limit = s.limit;
        remaining = max_ℤ (pos 0) left;
        reset_at = or_else s.expires_at (now +ℤ s.ttl_ms);
        retry_after_ms = pos 0;
      }),
      record s { credits = left },
    )
    else (none, s)

-- `none` asks the caller to refresh. A raise comes before any change.
unfoldable pub spend : LeaseSpender → ℤ → ℤ → Result (Option Decision) × LeaseSpender
unfolding require_cost discard_rolled serve
spend s now cost = elim (require_cost cost) [
  | err e ↦ (err e, s)
  | ok _ ↦ let (decision, s') = serve (discard_rolled s now) now cost in (ok decision, s')
]

unfoldable pub reset : LeaseSpender → LeaseSpender
reset s = record s { credits = pos 0; expires_at = none }
