-- ===== src/Contract/Caches/Reads.antt =====
-- The cached look-ups of src/throttlekit/_contract.py beside the uncached `script`.
use throttlekit_py.Base.{
  ℕ, suc, ◌+◌, ◌≤◌, String, same_text, ◌&&◌, ◌⊎◌, inl, inr, Option, none, some, List, [], ◌∷◌, ◌≡◌,
  refl, sym, ap, ◌∙◌, arith, eq_iff, Bool-cases,
}
use throttlekit_py.Errors.{Exn, Result, ok, err}
use throttlekit_py.Contract.{Entry, Script, Files, load, script}
use throttlekit_py.Contract.Caches.{
  Manifest, Reader, CachedScript, Caches, empty_caches, find_kept, script_of, if_read, first_match,
  keep_manifest, manifest_or_read, cached_manifest, keep_script, from_manifest, kept_or_load,
  cached_script,
}

-- A result is the expected one, or an exception of reading.
abbrev pub IsAsStored : {A : Type 0} → (Exn → Type 0) → Result A → Result A → Type 0
IsAsStored IsIo expected (ok a) = expected ≡ ok a
IsAsStored IsIo expected (err e) = (expected ≡ err e) ⊎ IsIo e

abbrev pub parses_after : Result Manifest → ℕ → ℕ
parses_after (ok m) n = suc n
parses_after (err e) n = n

-- Files that do not change, of which a reading may fail; the world counts the readings of the manifest that
-- do not.
pub record Stored {W : Type 0} (reader : Reader W) (files : Files) (m : Manifest)
    (IsIo : Exn → Type 0) : Type 0 where
  pub parses : W → ℕ
  pub same_digest : (text : String) → reader.sha1_hex text ≡ files.sha1_hex text
  pub manifest_read : (w : W) → IsAsStored IsIo (ok m) (reader.read_manifest w).0
  pub text_read :
      (f : String) (w : W) → IsAsStored IsIo (ok (files.read_text f)) (reader.read_text f w).0
  pub parse_counted :
      (w : W)
      → parses (reader.read_manifest w).1 ≡ parses_after (reader.read_manifest w).0 (parses w)
  pub text_uncounted : (f : String) (w : W) → parses (reader.read_text f w).1 ≡ parses w

if_read_world : {A B W : Type 0} (f : A → B) (out : Result A × W) → (if_read f out).1 ≡ out.1
if_read_world f (ok a, w) = refl
if_read_world f (err e, w) = refl

-- Calls of `script`, one after the other.
abbrev pub look_ups :
    {W : Type 0}
    → Reader W
    → List (String × String)
    → Caches
    → W
    → List (Result Script) × Caches × W
look_ups reader [] c w = ([], c, w)
look_ups reader ((strategy, role) ∷ calls) c w =
    let (r, c', w') = cached_script reader strategy role c w in
    let (rs, c'', w'') = look_ups reader calls c' w' in (r ∷ rs, c'', w'')

-- The results are those of the calls of an uncached function, or exceptions of reading.
abbrev pub AllAsStored :
    (Exn → Type 0)
    → (String → String → Result Script)
    → List (String × String)
    → List (Result Script)
    → Type 0
AllAsStored IsIo uncached [] [] = Unit
AllAsStored IsIo uncached [] (r ∷ rs) = ⊥
AllAsStored IsIo uncached (call ∷ calls) [] = ⊥
AllAsStored IsIo uncached ((strategy, role) ∷ calls) (r ∷ rs) =
    IsAsStored IsIo (uncached strategy role) r × AllAsStored IsIo uncached calls rs

module _ {W : Type 0} (reader : Reader W) (files : Files) (m : Manifest) (IsIo : Exn → Type 0)
    (stored : Stored reader files m IsIo) where
  open stored use {parses}

  -- What is kept is what the files say.
  abbrev ManifestKept : Option Manifest → Type 0
  ManifestKept none = Unit
  ManifestKept (some m') = m' ≡ m

  abbrev ScriptsKept : List CachedScript → Type 0
  ScriptsKept [] = Unit
  ScriptsKept (k ∷ ks) = (script files m.scripts k.strategy k.role ≡ ok k.found) × ScriptsKept ks

  abbrev CachesKept : Caches → Type 0
  CachesKept c = ManifestKept c.manifest × ScriptsKept c.scripts

  -- The readings of the manifest that are left.
  abbrev parses_left : Option Manifest → ℕ
  parses_left none = 1
  parses_left (some m') = 0

  abbrev budget_of : Caches → W → ℕ
  budget_of c w = parses w + parses_left c.manifest

  -- A call from true caches: its result, and what it leaves.
  abbrev CallKept : {A : Type 0} → Result A → Caches → W → Result A × Caches × W → Type 0
  CallKept expected c w (r, c', w') =
      IsAsStored IsIo expected r × CachesKept c' × (budget_of c' w' ≤ budget_of c w)

  find_kept-script :
      (strategy role : String) (ks : List CachedScript) {s : Script}
      → ScriptsKept ks
      → find_kept strategy role ks ≡ some s
      → script files m.scripts strategy role ≡ ok s
  find_kept-script strategy role [] v e = ground arith
  find_kept-script strategy role (k ∷ ks) {s = s} v e =
      elim (Bool-cases (same_text k.strategy strategy && same_text k.role role)) [
        | inl same ↦
            let at_strategy : k.strategy ≡ strategy =
              (eq_iff k.strategy strategy).0 (ground (arith, same)) in
            let at_role : k.role ≡ role = (eq_iff k.role role).0 (ground (arith, same)) in
            let at_call : k.found ≡ s = ground (arith, e, same) in
            rw (sym at_strategy, sym at_role, sym at_call) v.0
        | inr other ↦ find_kept-script strategy role ks v.1 (ground (arith, e, other))
      ]

  if_read-IsAsStored :
      (entry : Entry) (out : Result String × W)
      → IsAsStored IsIo (ok (files.read_text entry.file)) out.0
      → IsAsStored IsIo (ok (load files entry)) (if_read (script_of reader.sha1_hex entry) out).0
  unfolding load
  if_read-IsAsStored entry (ok text, w) e =
      let read : files.read_text entry.file ≡ text = cc in rw (read, stored.same_digest text) refl
  if_read-IsAsStored entry (err x, w) e = ground arith

  first_match-script :
      (entries : List Entry) (strategy role : String) (w : W)
      → let out = first_match reader entries strategy role w in
        IsAsStored IsIo (script files entries strategy role) out.0 × (parses out.1 ≡ parses w)
  unfolding first_match script
  first_match-script [] strategy role w = (inl refl, refl)
  first_match-script (entry ∷ entries) strategy role w =
      elim (Bool-cases (same_text entry.strategy strategy && same_text entry.role role)) [
        | inl fits ↦
            let out = reader.read_text entry.file w in
            rw fits (
              if_read-IsAsStored entry out (stored.text_read entry.file w),
              ap parses (if_read_world (script_of reader.sha1_hex entry) out)
                  ∙ stored.text_uncounted entry.file w,
            )
        | inr other ↦ rw other (first_match-script entries strategy role w)
      ]

  keep_manifest-CallKept :
      (c : Caches) (w : W) (out : Result Manifest × W)
      → CachesKept c
      → c.manifest ≡ none
      → IsAsStored IsIo (ok m) out.0
      → parses out.1 ≡ parses_after out.0 (parses w)
      → CallKept (ok m) c w (keep_manifest reader c out)
  keep_manifest-CallKept c w (ok m', w') v unread e n =
      let left : parses_left c.manifest ≡ 1 = ap parses_left unread in
      (e, (cc, v.1), omega (arith, n, left))
  keep_manifest-CallKept c w (err x, w') v unread e n = (e, v, omega (arith, n))

  manifest_or_read-CallKept :
      (o : Option Manifest) (c : Caches) (w : W)
      → c.manifest ≡ o
      → CachesKept c
      → CallKept (ok m) c w (manifest_or_read reader o c w)
  manifest_or_read-CallKept none c w e v =
      keep_manifest-CallKept c w (reader.read_manifest w) v e (stored.manifest_read w)
        (stored.parse_counted w)
  manifest_or_read-CallKept (some m') c w e v =
      let kept : ManifestKept (some m') = rw e at v.0 in (ap ok (sym kept), v, omega arith)

  cached_manifest-CallKept :
      (c : Caches) (w : W) → CachesKept c → CallKept (ok m) c w (cached_manifest reader c w)
  unfolding cached_manifest
  cached_manifest-CallKept c w v = manifest_or_read-CallKept c.manifest c w refl v

  keep_script-CallKept :
      (strategy role : String) (c : Caches) (w : W) (out : Result Script × W)
      → CachesKept c
      → IsAsStored IsIo (script files m.scripts strategy role) out.0
      → parses out.1 ≡ parses w
      → CallKept (script files m.scripts strategy role) c w (keep_script reader strategy role c out)
  keep_script-CallKept strategy role c w (ok s, w') v e n = (e, (v.0, (e, v.1)), omega (arith, n))
  keep_script-CallKept strategy role c w (err x, w') v e n = (e, v, omega (arith, n))

  from_manifest-CallKept :
      (strategy role : String) (c : Caches) (w : W) (out : Result Manifest × Caches × W)
      → CallKept (ok m) c w out
      → CallKept (script files m.scripts strategy role) c w (from_manifest reader strategy role out)
  unfolding from_manifest
  from_manifest-CallKept strategy role c w (err x, c', w') (e, v, n) = (ground arith, v, n)
  from_manifest-CallKept strategy role c w (ok m', c', w') (e, v, n) =
      let same : m ≡ m' = cc in
      let (found, counted) = first_match-script m.scripts strategy role w' in
      let (e', v', n') =
        keep_script-CallKept strategy role c' w' (first_match reader m.scripts strategy role w') v
          found counted in
      rw (sym same) (e', v', omega (arith, n, n'))

  kept_or_load-CallKept :
      (strategy role : String) (o : Option Script) (c : Caches) (w : W)
      → find_kept strategy role c.scripts ≡ o
      → CachesKept c
      → CallKept
          (script files m.scripts strategy role)
          c
          w
          (kept_or_load reader strategy role o c w)
  kept_or_load-CallKept strategy role none c w e v =
      from_manifest-CallKept strategy role c w (cached_manifest reader c w)
        (cached_manifest-CallKept c w v)
  kept_or_load-CallKept strategy role (some s) c w e v =
      (find_kept-script strategy role c.scripts v.1 e, v, omega arith)

  cached_script-CallKept :
      (strategy role : String) (c : Caches) (w : W)
      → CachesKept c
      → CallKept (script files m.scripts strategy role) c w (cached_script reader strategy role c w)
  unfolding cached_script
  cached_script-CallKept strategy role c w v = kept_or_load-CallKept strategy role _ c w refl v

  look_ups-CachesKept :
      (calls : List (String × String)) (c : Caches) (w : W)
      → CachesKept c
      → let (rs, c', w') = look_ups reader calls c w in
        AllAsStored IsIo (script files m.scripts) calls rs × (budget_of c' w' ≤ budget_of c w)
  look_ups-CachesKept [] c w v = (tt, omega arith)
  look_ups-CachesKept ((strategy, role) ∷ calls) c w v =
      let (e, v', n) = cached_script-CallKept strategy role c w v in
      let (es, n') = look_ups-CachesKept calls _ _ v' in ((e, es), omega (arith, n, n'))

  -- Calls of `script` in a process whose caches are empty at first, over files that do not change but of which a
  -- reading may fail: each call returns what the uncached look-up in those files returns, or raises the
  -- KeyError that it raises, or raises an exception of a reading that failed; and
  -- the manifest is read with success once at most.
  pub look_ups_uncached :
      (calls : List (String × String)) (w : W)
      → let (rs, c', w') = look_ups reader calls empty_caches w in
        AllAsStored IsIo (script files m.scripts) calls rs × (parses w' ≤ suc (parses w))
  look_ups_uncached calls w =
      let (same, n) = look_ups-CachesKept calls empty_caches w (tt, tt) in (same, omega (arith, n))
