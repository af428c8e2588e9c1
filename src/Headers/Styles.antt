-- ===== src/Headers/Styles.antt =====
-- Which headers each style stamps (src/throttlekit/headers.py).
use throttlekit_py.Base.{
  String, ℤ, str_int, Dict, lookup, lookup-insert, ◌∙◌, true, false, Option, none, some, [], ◌≡◌,
  refl, arith,
}
use throttlekit_py.Decision.{Decision}
use throttlekit_py.Errors.{ok, err, value_error}
use throttlekit_py.Headers.{
  ceil_seconds, known_style, wants_ietf, wants_legacy, triples, retry_header, decision_headers,
  ietf_headers, legacy_headers,
}
use throttlekit_py.Headers.Waits.{header}

-- A style other than the three raises `ValueError`, whatever the decision; each of the three gives
-- headers.
unknown_style_raises :
    (d : Decision) (style : String) (now : ℤ)
    → (known_style style ≡ false → decision_headers d style now ≡ err value_error)
      × (known_style style ≡ true → (h : Dict String) × (decision_headers d style now ≡ ok h))
unfolding decision_headers
unknown_style_raises d style now = (
  λ unknown. rw unknown,
  λ known. (retry_header d (triples (wants_ietf style) (wants_legacy style) d now), rw known),
)

-- The first of two headers that is there.
abbrev pub either_header : Option String → Option String → Option String
either_header (some v) other = some v
either_header none other = other

lookup-retry :
    (k : String) (d : Decision) (h : Dict String)
    → lookup k (retry_header d h) ≡ either_header (lookup k (retry_header d [])) (lookup k h)
unfolding retry_header lookup
lookup-retry k d h =
    let value : String = str_int (ceil_seconds d.retry_after_ms) in
    ground (
      arith,
      lookup-insert "Retry-After" k value h,
      lookup-insert {V = String} "Retry-After" k value [],
    )

lookup-legacy_headers :
    (k : String) (d : Decision) (h : Dict String)
    → lookup k (legacy_headers d h) ≡ either_header (lookup k (legacy_headers d [])) (lookup k h)
unfolding legacy_headers lookup
lookup-legacy_headers k d h = simp lookup-insert (ground arith)

either_regroup :
    (r l i : Option String)
    → either_header r (either_header l i) ≡ either_header (either_header r l) (either_header r i)
either_regroup none l i = refl
either_regroup (some v) l i = refl

-- The style `both` gives under each name what `legacy` gives, and where that has no such header, what
-- `ietf` gives.
both_joins :
    (k : String) (d : Decision) (now : ℤ)
    → header k (decision_headers d "both" now)
      ≡ either_header
          (header k (decision_headers d "legacy" now))
          (header k (decision_headers d "ietf" now))
unfolding decision_headers triples
both_joins k d now =
    lookup-retry k d (legacy_headers d (ietf_headers d now []))
    ∙ rw
        (
          lookup-legacy_headers k d (ietf_headers d now []),
          lookup-retry k d (legacy_headers d []),
          lookup-retry k d (ietf_headers d now []),
        )
        (either_regroup (lookup k (retry_header d [])) (lookup k (legacy_headers d []))
          (lookup k (ietf_headers d now [])))
