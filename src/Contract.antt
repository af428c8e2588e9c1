-- ===== src/Contract.antt =====
-- src/throttlekit/_contract.py and _scripts/manifest.json: the vendored Lua scripts, found by
-- strategy and role. The files' texts and SHA-1 are outside: they are parameters.
pub mod Caches
use throttlekit_py.Base.{String, same_text, ◌&&◌, List, [], ◌∷◌, if◌then◌else◌}
use throttlekit_py.Errors.{Result, ok, err, key_error}

-- An entry of the manifest's `scripts`.
pub record Entry : Type 0 where
  pub name : String
  pub strategy : String
  pub role : String
  pub file : String
  pub argv : List String

pub record Script : Type 0 where
  pub name : String
  pub strategy : String
  pub role : String
  pub argv : List String
  pub source : String
  pub sha1 : String

-- `Path.read_text` in the scripts' directory, and `hashlib.sha1(…).hexdigest()`.
pub record Files : Type 0 where
  pub read_text : String → String
  pub sha1_hex : String → String

unfoldable pub load : Files → Entry → Script
load files entry =
    let source = files.read_text entry.file in
    record {
      name = entry.name;
      strategy = entry.strategy;
      role = entry.role;
      argv = entry.argv;
      source = source;
      sha1 = files.sha1_hex source;
    }

-- `script`, over the entries of the manifest: the first that fits.
unfoldable pub script : Files → List Entry → String → String → Result Script
unfolding load
script files [] strategy role = err key_error
script files (entry ∷ entries) strategy role =
    if same_text entry.strategy strategy && same_text entry.role role
    then ok (load files entry)
    else script files entries strategy role

abbrev entry_of : String → String → String → String → List String → Entry
entry_of name strategy role file argv = record {
  name = name;
  strategy = strategy;
  role = role;
  file = file;
  argv = argv;
}

-- `_manifest()["scripts"]`, as the repository has it.
unfoldable pub manifest_scripts : List Entry
manifest_scripts =
    entry_of "gcra.check" "gcra" "check" "gcra.check.lua"
      ("now" ∷ "periodMs" ∷ "limit" ∷ "burst" ∷ "cost" ∷ [])
    ∷ entry_of "gcra.read" "gcra" "read" "gcra.read.lua" []
    ∷ entry_of "tokenBucket.check" "tokenBucket" "check" "tokenBucket.check.lua"
        ("now" ∷ "capacity" ∷ "refillPerSec" ∷ "cost" ∷ [])
    ∷ entry_of "tokenBucket.read" "tokenBucket" "read" "tokenBucket.read.lua" []
    ∷ entry_of "fixedWindow.check" "fixedWindow" "check" "fixedWindow.check.lua"
        ("now" ∷ "limit" ∷ "windowMs" ∷ "cost" ∷ [])
    ∷ entry_of "fixedWindow.read" "fixedWindow" "read" "fixedWindow.read.lua" []
    ∷ entry_of "slidingWindow.check" "slidingWindow" "check" "slidingWindow.check.lua"
        ("now" ∷ "windowMs" ∷ "limit" ∷ "cost" ∷ "buckets" ∷ [])
    ∷ entry_of "slidingWindow.read" "slidingWindow" "read" "slidingWindow.read.lua" []
    ∷ entry_of "slidingWindowLog.check" "slidingWindowLog" "check" "slidingWindowLog.check.lua"
        ("now" ∷ "windowMs" ∷ "limit" ∷ "cost" ∷ [])
    ∷ entry_of "slidingWindowLog.read" "slidingWindowLog" "read" "slidingWindowLog.read.lua" []
    ∷ []
