-- ===== src/Headers/Waits.antt =====
-- The waits that the headers advertise cover the real ones (src/throttlekit/headers.py).
use throttlekit_py.Base.{
  ◌+◌, ◌*◌, ◌≤◌, ◌<◌, String, ℤ, pos, negsuc, pos_part, neg_part, ◌+ℤ◌, ◌-ℤ◌, ◌≤ℤ◌, ◌<ℤ◌, max_ℤ,
  +ℤ_parts, -ℤ_parts, str_int, same_text, Dict, lookup, insert, lookup-insert, Bool, true, false,
  Option, none, some, ◌≡◌, refl, arith,
}
use throttlekit_py.Decision.{Decision}
use throttlekit_py.Errors.{Result, ok, err}
use throttlekit_py.Headers.{
  ceil_seconds, reset_delta, retry_header, decision_headers, triples, known_style, wants_ietf,
  wants_legacy,
}

-- `seconds` covers `ms` milliseconds, and one second less does not.
abbrev pub IsCeiling : ℤ → ℤ → Type 0
IsCeiling ms seconds =
    (pos_part ms + 1000 * neg_part seconds ≤ 1000 * pos_part seconds + neg_part ms)
    × (1000 * pos_part seconds + neg_part ms < pos_part ms + 1000 * neg_part seconds + 1000)

pub ceil_seconds-IsCeiling : (ms : ℤ) → IsCeiling ms (ceil_seconds ms)
unfolding ceil_seconds
ceil_seconds-IsCeiling (pos n) = omega arith
ceil_seconds-IsCeiling (negsuc n) = ground arith

-- What the caller finds in a header.
abbrev pub header : String → Result (Dict String) → Option String
header name (ok headers) = lookup name headers
header name (err e) = none

retry_in_triples :
    (ietf legacy : Bool) (d : Decision) (now : ℤ)
    → lookup "Retry-After" (triples ietf legacy d now) ≡ none
unfolding triples lookup insert
retry_in_triples false false d now = refl
retry_in_triples false true d now = refl
retry_in_triples true false d now = refl
retry_in_triples true true d now = refl

reset_in_triples :
    (legacy : Bool) (d : Decision) (now : ℤ)
    → lookup "RateLimit-Reset" (triples true legacy d now) ≡ some (str_int (reset_delta d now))
unfolding triples lookup insert
reset_in_triples false d now = refl
reset_in_triples true d now = refl

retry_absent : (d : Decision) (h : Dict String) → d.retry_after_ms ≤ℤ pos 0 → retry_header d h ≡ h
unfolding retry_header
retry_absent d h none_due = ground arith

retry_present :
    (d : Decision) (h : Dict String)
    → pos 0 <ℤ d.retry_after_ms
    → retry_header d h ≡ insert "Retry-After" (str_int (ceil_seconds d.retry_after_ms)) h
unfolding retry_header
retry_present d h due = ground arith

pub lookup-retry_header :
    (k : String) (d : Decision) (h : Dict String)
    → same_text "Retry-After" k ≡ false
    → lookup k (retry_header d h) ≡ lookup k h
unfolding retry_header
lookup-retry_header k d h other =
    ground (arith, lookup-insert "Retry-After" k (str_int (ceil_seconds d.retry_after_ms)) h)

pub known_of_ietf : (style : String) → wants_ietf style ≡ true → known_style style ≡ true
known_of_ietf style wanted = ground arith

-- `Retry-After` is there exactly when the decision advises a wait: with no wait the header is absent,
-- and a wait of `retry_after_ms` is shown by the least number of seconds that covers it. This holds
-- in each of the known styles.
pub retry_after_covers :
    (d : Decision) (style : String) (now : ℤ)
    → known_style style ≡ true
    → (d.retry_after_ms ≤ℤ pos 0 → header "Retry-After" (decision_headers d style now) ≡ none)
      × (pos 0 <ℤ d.retry_after_ms
          → (seconds : ℤ) × (header "Retry-After" (decision_headers d style now)
              ≡ some (str_int seconds))
            × IsCeiling d.retry_after_ms seconds)
unfolding decision_headers
retry_after_covers d style now known =
    let absent = retry_in_triples (wants_ietf style) (wants_legacy style) d now in
    (
      λ h. rw (known, retry_absent d _ h) absent,
      λ h. (
        ceil_seconds d.retry_after_ms,
        rw (known, retry_present d _ h, lookup-insert),
        ceil_seconds-IsCeiling d.retry_after_ms,
      ),
    )

reset_delta_bounds :
    (d : Decision) (now : ℤ)
    → (pos 0 ≤ℤ reset_delta d now)
      × (d.reset_at ≤ℤ now +ℤ pos (1000 * pos_part (reset_delta d now)))
      × (pos 0 <ℤ reset_delta d now
          → now +ℤ pos (1000 * pos_part (reset_delta d now)) <ℤ d.reset_at +ℤ pos 1000)
unfolding reset_delta max_ℤ
reset_delta_bounds d now =
    let ceiling = ceil_seconds-IsCeiling (d.reset_at -ℤ now) in
    ground (
      arith,
      -ℤ_parts d.reset_at now,
      +ℤ_parts d.reset_at (pos 1000),
      +ℤ_parts now (pos 0),
      +ℤ_parts now (pos (1000 * pos_part (ceil_seconds (d.reset_at -ℤ now)))),
    )

-- In the styles `ietf` and `both` the reset is a number of seconds from now, zero or more, after which
-- the limiter is replenished; and if it is not zero, one second less would be too early.
ietf_reset_covers :
    (d : Decision) (style : String) (now : ℤ)
    → wants_ietf style ≡ true
    → (seconds : ℤ) × (header "RateLimit-Reset" (decision_headers d style now)
        ≡ some (str_int seconds))
      × (pos 0 ≤ℤ seconds)
      × (d.reset_at ≤ℤ now +ℤ pos (1000 * pos_part seconds))
      × (pos 0 <ℤ seconds → now +ℤ pos (1000 * pos_part seconds) <ℤ d.reset_at +ℤ pos 1000)
unfolding decision_headers
ietf_reset_covers d style now wanted =
    let (nonneg, covers, least) = reset_delta_bounds d now in
    let found = reset_in_triples (wants_legacy style) d now in
    (
      reset_delta d now,
      rw (known_of_ietf style wanted, lookup-retry_header "RateLimit-Reset" d _ refl, wanted) found,
      nonneg,
      covers,
      least,
    )
