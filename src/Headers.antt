-- ===== src/Headers.antt =====
-- src/throttlekit/headers.py: `decision_headers`. A header's value is the text of an integer. The
-- true divisions by 1000 are taken exactly: Python's are by floats, whose ceiling is the same while
-- the quotient is below 2 ^ 42.
pub mod Waits
pub mod Styles
mod Tests
use throttlekit_py.Base.{
  ℕ, suc, ◌+◌, ◌/◌, String, ℤ, pos, negsuc, sub_ℕ, ◌-ℤ◌, ltb_ℤ, max_ℤ, str_int, same_text, Dict,
  insert, Bool, not, ◌||◌, [], if◌then◌else◌,
}
use throttlekit_py.Decision.{Decision}
use throttlekit_py.Errors.{Result, ok, err, value_error}

-- `math.ceil(ms / 1000)`
unfoldable pub ceil_seconds : ℤ → ℤ
ceil_seconds (pos n) = pos ((n + 999) / 1000)
ceil_seconds (negsuc n) = sub_ℕ 0 (suc n / 1000)

-- `ms // 1000`
unfoldable pub floor_seconds : ℤ → ℤ
floor_seconds (pos n) = pos (n / 1000)
floor_seconds (negsuc n) = negsuc (n / 1000)

abbrev pub known_style : String → Bool
known_style style = same_text style "ietf" || same_text style "legacy" || same_text style "both"

unfoldable pub reset_delta : Decision → ℤ → ℤ
reset_delta d now = max_ℤ (pos 0) (ceil_seconds (d.reset_at -ℤ now))

abbrev pub shown_remaining : Decision → ℤ
shown_remaining d = max_ℤ (pos 0) d.remaining

-- The body of `if style in ("ietf", "both")`.
unfoldable pub ietf_headers : Decision → ℤ → Dict String → Dict String
ietf_headers d now headers = insert "RateLimit-Reset" (str_int (reset_delta d now)) (
    insert "RateLimit-Remaining" (str_int (shown_remaining d))
      (insert "RateLimit-Limit" (str_int d.limit) headers))

-- The body of `if style in ("legacy", "both")`.
unfoldable pub legacy_headers : Decision → Dict String → Dict String
legacy_headers d headers = insert "X-RateLimit-Reset" (str_int (floor_seconds d.reset_at)) (
    insert "X-RateLimit-Remaining" (str_int (shown_remaining d))
      (insert "X-RateLimit-Limit" (str_int d.limit) headers))

unfoldable pub retry_header : Decision → Dict String → Dict String
retry_header d headers =
    if ltb_ℤ (pos 0) d.retry_after_ms
    then insert "Retry-After" (str_int (ceil_seconds d.retry_after_ms)) headers
    else headers

-- The two `if style in …` in turn, on the results of their tests.
unfoldable pub triples : Bool → Bool → Decision → ℤ → Dict String
unfolding ietf_headers legacy_headers
triples ietf legacy d now =
    let first : Dict String = if ietf then ietf_headers d now [] else [] in
    if legacy then legacy_headers d first else first

abbrev pub wants_ietf : String → Bool
wants_ietf style = same_text style "ietf" || same_text style "both"

abbrev pub wants_legacy : String → Bool
wants_legacy style = same_text style "legacy" || same_text style "both"

-- `now` is `now_ms`, or what the clock showed where none was given.
unfoldable pub decision_headers : Decision → String → ℤ → Result (Dict String)
decision_headers d style now =
    if not (known_style style)
    then err value_error
    else ok (retry_header d (triples (wants_ietf style) (wants_legacy style) d now))
