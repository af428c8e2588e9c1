-- ===== src/Headers/Tests.antt =====
-- `decision_headers` at the inputs of tests/test_headers.py, and each theorem about it at an input.
use throttlekit_py.Base.{
  ℤ, pos, ◌-ℤ◌, max_ℤ, str_int, insert, false, some, [], ◌∷◌, ◌≡◌, refl, arith,
}
use throttlekit_py.Decision.{Decision}
use throttlekit_py.Errors.{ok}
use throttlekit_py.Headers.{
  ceil_seconds, floor_seconds, reset_delta, triples, retry_header, decision_headers,
}
use throttlekit_py.Headers.Waits.{header, IsCeiling, retry_after_covers}

abbrev denied : Decision
denied = record {
  allowed = false;
  limit = pos 100;
  remaining = pos 0;
  reset_at = pos 61500;
  retry_after_ms = pos 1500;
}

denied_both :
    decision_headers denied "both" (pos 60000)
    ≡ ok (
        ("RateLimit-Limit", "100")
        ∷ ("RateLimit-Remaining", "0")
        ∷ ("RateLimit-Reset", "2")
        ∷ ("X-RateLimit-Limit", "100")
        ∷ ("X-RateLimit-Remaining", "0")
        ∷ ("X-RateLimit-Reset", "61")
        ∷ ("Retry-After", "2")
        ∷ [])
unfolding decision_headers triples retry_header insert reset_delta max_ℤ ceil_seconds floor_seconds
    ◌-ℤ◌ str_int
denied_both = refl

retry_after_covers_example :
    (seconds : ℤ) × (header "Retry-After" (decision_headers denied "legacy" (pos 60000))
      ≡ some (str_int seconds))
    × IsCeiling (pos 1500) seconds
retry_after_covers_example = (retry_after_covers denied "legacy" (pos 60000) refl).1 (omega arith)
