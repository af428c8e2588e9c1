-- ===== src/Base/Dicts.antt =====
-- A Python dict with text keys, in insertion order.
use Prim.Native.String.{String}
use mathlib.Core.Path.{◌≡◌, refl}
use mathlib.Core.Bool.{Bool, true, false, ◌||◌}
use mathlib.Core.Option.{Option, none, some}
use mathlib.Core.List.{List, [], ◌∷◌}
use native.Mathlib.Omega.{arith}
use text.Mathlib.Text.{◌==◌ as str_eq}
use text.Mathlib.TextEquality.{eq_iff}
use throttlekit_py.Base.Tests.{if◌then◌else◌}

-- `a == b` on texts.
abbrev pub same_text : String → String → Bool
same_text a b = str_eq a b

abbrev pub Dict {ℓ} : Type ℓ → Type ℓ
Dict V = List (String × V)

module _ {ℓ} {V : Type ℓ} where
  unfoldable pub lookup : String → Dict V → Option V
  lookup key [] = none
  lookup key ((at, value) ∷ rest) = if same_text at key then some value else lookup key rest

  -- `d[key] = value`
  unfoldable pub insert : String → V → Dict V → Dict V
  insert key value [] = (key, value) ∷ []
  insert key value ((at, old) ∷ rest) =
      let tail = insert key value rest in
      if same_text at key then (at, value) ∷ rest else (at, old) ∷ tail

  -- `d.pop(key, None)`, less the value; a dict holds a key once, so all entries of the key go.
  unfoldable pub remove : String → Dict V → Dict V
  remove key [] = []
  remove key ((at, value) ∷ rest) =
      let tail = remove key rest in if same_text at key then tail else (at, value) ∷ tail

  -- `list(d)`
  unfoldable pub keys : Dict V → List String
  keys [] = []
  keys ((at, value) ∷ rest) = at ∷ keys rest

  pub lookup-insert :
      (key asked : String) (value : V) (d : Dict V)
      → lookup asked (insert key value d)
        ≡ (if same_text key asked then some value else lookup asked d)
  unfolding insert lookup
  lookup-insert key asked value [] = refl
  lookup-insert key asked value ((at, old) ∷ rest) =
      ground (
        arith,
        lookup-insert key asked value rest,
        eq_iff at asked,
        eq_iff at key,
        eq_iff key asked,
      )

  pub lookup-remove :
      (key asked : String) (d : Dict V)
      → lookup asked (remove key d) ≡ (if same_text key asked then none else lookup asked d)
  unfolding remove lookup
  lookup-remove key asked [] = ground arith
  lookup-remove key asked ((at, value) ∷ rest) =
      ground (arith, lookup-remove key asked rest, eq_iff at asked, eq_iff at key, eq_iff key asked)

-- `key in list`
abbrev pub has_text : String → List String → Bool
has_text key [] = false
has_text key (at ∷ ats) = same_text at key || has_text key ats

-- A key of a dict is among its keys.
pub keys_has_text {ℓ} :
    {V : Type ℓ} (key : String) (v : V) (d : Dict V)
    → lookup key d ≡ some v
    → has_text key (keys d) ≡ true
unfolding lookup keys
keys_has_text key v [] e = ground arith
keys_has_text key v ((at, value) ∷ d) e = ground (arith, keys_has_text key v d)
