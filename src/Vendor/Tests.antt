-- ===== src/Vendor/Tests.antt =====
-- A checkout of the core with two scripts, and one without its golden vectors.
use throttlekit_py.Base.{String, Dict, lookup, insert, some, [], ◌∷◌, ◌≡◌, ◌≢◌, refl, inl, inr}
use throttlekit_py.Errors.{ok}
use throttlekit_py.Contract.{Entry, script}
use throttlekit_py.Vendor.{
  Core, Repo, join_lines, copy_artifacts, copy_scripts, vendor_scripts, sync_scripts,
  after_artifacts, sync_main,
}
use throttlekit_py.Vendor.Vendored.{Vendored, sync_vendors_scripts}
use throttlekit_py.Vendor.Loading.{vendored_files, core_files, vendored_manifest, vendored_script}
use throttlekit_py.Vendor.Failures.{incomplete_core_keeps_scripts}

abbrev gcra_entry : Entry
gcra_entry = record {
  name = "gcra.check";
  strategy = "gcra";
  role = "check";
  file = "gcra.check.lua";
  argv = "limit" ∷ [];
}

abbrev manifest : String × String
manifest = ("wire/scripts/manifest.json", "{scripts}")

abbrev gcra_file : String × String
gcra_file = ("wire/scripts/gcra.check.lua", "return 1")

abbrev artifact_files : Dict String
artifact_files =
    ("wire/throttlekit.proto", "syntax")
    ∷ ("wire/vectors/golden-vectors.json", "[]")
    ∷ manifest
    ∷ gcra_file
    ∷ []

abbrev core_with : Dict String → Core
core_with files = record {
  file_at = λ path. lookup path files;
  str_path = λ path. path;
  sha256_hex = λ text. text;
  json_loads = λ text. ok (some (gcra_entry ∷ []));
}

-- The directory of scripts holds one that the core no longer ships.
abbrev old_repo : Repo
old_repo = record { contract = []; scripts = some (("old.lua", "return 0") ∷ []) }

abbrev synced : Repo
synced = (sync_main (core_with artifact_files) old_repo).1

synced_ok : sync_main (core_with artifact_files) old_repo ≡ (ok tt, synced)
unfolding sync_main after_artifacts sync_scripts vendor_scripts copy_scripts copy_artifacts insert
    lookup
synced_ok = refl

synced_contract : synced.contract ≡ (
    ("throttlekit.proto", "syntax")
    ∷ ("golden-vectors.json", "[]")
    ∷ ("manifest.sha256", "syntax  throttlekit.proto\n[]  golden-vectors.json\n")
    ∷ [])
unfolding sync_main after_artifacts sync_scripts vendor_scripts copy_scripts copy_artifacts insert
    lookup join_lines
synced_contract = refl

sync_vendors_scripts_example : Vendored (core_with artifact_files) synced
sync_vendors_scripts_example =
    sync_vendors_scripts (core_with artifact_files) old_repo synced synced_ok

vendored_script_example :
    (vendored_manifest synced.scripts ≡ some "{scripts}")
    × (script (vendored_files (λ text. text) synced.scripts) (gcra_entry ∷ []) "gcra" "check"
        ≡ script
            (core_files (λ text. text) (core_with artifact_files))
            (gcra_entry ∷ [])
            "gcra"
            "check")
unfolding lookup
vendored_script_example =
    vendored_script (core_with artifact_files) old_repo synced (λ text. text) "{scripts}" "gcra"
      "check" (gcra_entry ∷ []) synced_ok refl refl

abbrev incomplete_files : Dict String
incomplete_files = ("wire/throttlekit.proto", "syntax") ∷ manifest ∷ gcra_file ∷ []

incomplete_core_keeps_scripts_example :
    ((sync_main (core_with incomplete_files) old_repo).0 ≢ ok tt)
    × ((sync_main (core_with incomplete_files) old_repo).1.scripts ≡ old_repo.scripts)
unfolding lookup
incomplete_core_keeps_scripts_example =
    incomplete_core_keeps_scripts (core_with incomplete_files) old_repo (inr (inl refl))
