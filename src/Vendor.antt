-- ===== src/Vendor.antt =====
-- scripts/sync_contract.py: `main`, which copies the contract and the Lua scripts from a checkout of the
-- core. A path of the checkout gives the text of its file, if it is there; SHA-256 and `json.loads` of the
-- scripts' manifest are parameters. Arguments and printing are left out, and so are files in
-- subdirectories of the scripts'.
pub mod Vendored
pub mod Failures
pub mod Loading
mod Tests
use throttlekit_py.Base.{String, text_append, Dict, insert, Option, none, some, List, [], ◌∷◌, ◌++◌}
use throttlekit_py.Errors.{Exn, Result, ok, err, key_error, foreign}
use throttlekit_py.Contract.{Entry}

-- The core's checkout, with the absolute path of a relative one, and what is computed from a text. The
-- manifest that `json.loads` gives is known by its `scripts`, if it has them.
pub record Core : Type 0 where
  pub file_at : String → Option String
  pub str_path : String → String
  pub sha256_hex : String → String
  pub json_loads : String → Result (Option (List Entry))

-- The two destinations: `contract/`, and `src/throttlekit/_scripts/` if it exists.
pub record Repo : Type 0 where
  pub contract : Dict String
  pub scripts : Option (Dict String)

-- `ARTIFACTS`
abbrev pub artifacts : List (String × String)
artifacts =
    ("wire/throttlekit.proto", "throttlekit.proto")
    ∷ ("wire/vectors/golden-vectors.json", "golden-vectors.json")
    ∷ []

abbrev pub system_exit : String → Exn
system_exit text = foreign "SystemExit" text

abbrev missing_manifest : String → Exn
missing_manifest path = system_exit (text_append "source scripts manifest missing: " path)

-- `"\n".join(lines) + "\n"`
unfoldable pub join_lines : List String → String
join_lines [] = "\n"
join_lines (line ∷ []) = text_append line "\n"
join_lines (line ∷ next ∷ lines) = text_append line (text_append "\n" (join_lines (next ∷ lines)))

-- The path in the core repo of a script's file.
abbrev pub script_path : String → String
script_path name = text_append "wire/scripts/" name

module _ (core : Core) where
  -- `f"{_sha256(dst)}  {dst_name}"`
  abbrev pub digest_line : String → String → String
  digest_line name text = text_append (core.sha256_hex text) (text_append "  " name)

  abbrev pub missing_artifact : String → String
  missing_artifact src =
      text_append "source artifact missing: "
        (text_append (core.str_path src) " (is --source the core repo?)")

  -- The loop over `ARTIFACTS`, with the lines so far.
  unfoldable pub copy_artifacts :
      List (String × String) → List String → Dict String → Result (List String) × Dict String
  copy_artifacts [] lines contract = (ok lines, contract)
  copy_artifacts ((src, dst) ∷ rest) lines contract =
      elim (core.file_at src) as (λ o. Result (List String) × Dict String) [
        | none ↦ (err (system_exit (missing_artifact src)), contract)
        | some text ↦
            copy_artifacts rest (lines ++ (digest_line dst text ∷ [])) (insert dst text contract)
      ]

  -- The loop over `manifest["scripts"]`.
  unfoldable pub copy_scripts : List Entry → Dict String → Result (Unit {0}) × Dict String
  copy_scripts [] scripts = (ok tt, scripts)
  copy_scripts (entry ∷ entries) scripts =
      elim (core.file_at (script_path entry.file)) as (λ o. Result (Unit {0}) × Dict String) [
        | none ↦
            (err (foreign "FileNotFoundError" (core.str_path (script_path entry.file))), scripts)
        | some text ↦ copy_scripts entries (insert entry.file text scripts)
      ]

  -- The directory is made anew, and only then the manifest is asked for its scripts.
  unfoldable pub vendor_scripts :
      String → Result (Option (List Entry)) → Repo → Result (Unit {0}) × Repo
  unfolding copy_scripts
  vendor_scripts text (err e) repo = (err e, repo)
  vendor_scripts text (ok none) repo =
      (err key_error, record repo { scripts = some (insert "manifest.json" text []) })
  vendor_scripts text (ok (some entries)) repo =
      let (r, scripts) = copy_scripts entries (insert "manifest.json" text []) in
      (r, record repo { scripts = some scripts })

  -- The second part of `main`.
  unfoldable pub sync_scripts : Option String → Repo → Result (Unit {0}) × Repo
  unfolding vendor_scripts
  sync_scripts none repo =
      (err (missing_manifest (core.str_path "wire/scripts/manifest.json")), repo)
  sync_scripts (some text) repo = vendor_scripts text (core.json_loads text) repo

  unfoldable pub after_artifacts :
      Result (List String) × Dict String → Repo → Result (Unit {0}) × Repo
  unfolding sync_scripts
  after_artifacts (err e, contract) repo = (err e, record repo { contract = contract })
  after_artifacts (ok lines, contract) repo =
      sync_scripts (core.file_at "wire/scripts/manifest.json")
        (record repo { contract = insert "manifest.sha256" (join_lines lines) contract })

  unfoldable pub sync_main : Repo → Result (Unit {0}) × Repo
  unfolding after_artifacts
  sync_main repo = after_artifacts (copy_artifacts artifacts [] repo.contract) repo
