-- ===== src/Contract/Caches.antt =====
-- The caches of src/throttlekit/_contract.py: `_manifest` under `lru_cache`, and `script` under `cache`.
-- Neither keeps an exception. Reading a file may raise, and changes the state `W` of the world.
pub mod Reads
mod Tests
use throttlekit_py.Base.{String, same_text, ◌&&◌, Option, none, some, List, [], ◌∷◌, if◌then◌else◌}
use throttlekit_py.Errors.{Result, ok, err, key_error}
use throttlekit_py.Contract.{Entry, Script}

-- What the functions read of the manifest; the version is as `str` gives it.
pub record Manifest : Type 0 where
  pub contract_version : String
  pub scripts : List Entry

-- `json.loads(_MANIFEST_PATH.read_text(…))`, `Path.read_text` in the scripts' directory, and `hashlib.sha1`.
pub record Reader (W : Type 0) : Type 0 where
  pub read_manifest : W → Result Manifest × W
  pub read_text : String → W → Result String × W
  pub sha1_hex : String → String

-- A script that `cache` keeps, under the arguments of its call.
pub record CachedScript : Type 0 where
  pub strategy : String
  pub role : String
  pub found : Script

pub record Caches : Type 0 where
  pub manifest : Option Manifest
  pub scripts : List CachedScript

abbrev pub empty_caches : Caches
empty_caches = record { manifest = none; scripts = [] }

abbrev pub find_kept : String → String → List CachedScript → Option Script
find_kept strategy role [] = none
find_kept strategy role (k ∷ ks) =
    if same_text k.strategy strategy && same_text k.role role
    then some k.found
    else find_kept strategy role ks

-- `Script(…)`, once the source is read.
abbrev pub script_of : (String → String) → Entry → String → Script
script_of sha1_hex entry source = record {
  name = entry.name;
  strategy = entry.strategy;
  role = entry.role;
  argv = entry.argv;
  source = source;
  sha1 = sha1_hex source;
}

abbrev pub if_read : {A B W : Type 0} → (A → B) → Result A × W → Result B × W
if_read f (ok a, w) = (ok (f a), w)
if_read f (err e, w) = (err e, w)

module _ {W : Type 0} (reader : Reader W) where
  -- The loop of `script`.
  unfoldable pub first_match : List Entry → String → String → W → Result Script × W
  first_match [] strategy role w = (err key_error, w)
  first_match (entry ∷ entries) strategy role w =
      let later = first_match entries strategy role w in
      if same_text entry.strategy strategy && same_text entry.role role
      then if_read (script_of reader.sha1_hex entry) (reader.read_text entry.file w)
      else later

  abbrev pub keep_manifest : Caches → Result Manifest × W → Result Manifest × Caches × W
  keep_manifest c (ok m, w) = (ok m, record c { manifest = some m }, w)
  keep_manifest c (err e, w) = (err e, c, w)

  abbrev pub manifest_or_read : Option Manifest → Caches → W → Result Manifest × Caches × W
  manifest_or_read none c w = keep_manifest c (reader.read_manifest w)
  manifest_or_read (some m) c w = (ok m, c, w)

  -- `_manifest`
  unfoldable pub cached_manifest : Caches → W → Result Manifest × Caches × W
  cached_manifest c w = manifest_or_read c.manifest c w

  abbrev pub version_of : Result Manifest × Caches × W → Result String × Caches × W
  version_of (ok m, c, w) = (ok m.contract_version, c, w)
  version_of (err e, c, w) = (err e, c, w)

  unfoldable pub contract_version : Caches → W → Result String × Caches × W
  unfolding cached_manifest
  contract_version c w = version_of (cached_manifest c w)

  abbrev pub keep_script : String → String → Caches → Result Script × W → Result Script × Caches × W
  keep_script strategy role c (ok s, w) = (
    ok s,
    record c { scripts = record { strategy = strategy; role = role; found = s } ∷ c.scripts },
    w,
  )
  keep_script strategy role c (err e, w) = (err e, c, w)

  unfoldable pub from_manifest :
      String → String → Result Manifest × Caches × W → Result Script × Caches × W
  unfolding first_match
  from_manifest strategy role (ok m, c, w) =
      keep_script strategy role c (first_match m.scripts strategy role w)
  from_manifest strategy role (err e, c, w) = (err e, c, w)

  abbrev pub kept_or_load :
      String → String → Option Script → Caches → W → Result Script × Caches × W
  kept_or_load strategy role none c w = from_manifest strategy role (cached_manifest c w)
  kept_or_load strategy role (some s) c w = (ok s, c, w)

  -- `script`
  unfoldable pub cached_script : String → String → Caches → W → Result Script × Caches × W
  unfolding from_manifest cached_manifest
  cached_script strategy role c w =
      kept_or_load strategy role (find_kept strategy role c.scripts) c w
