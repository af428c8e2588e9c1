-- ===== src/Vendor/Failures.antt =====
-- Where scripts/sync_contract.py stops before it touches the scripts.
use throttlekit_py.Base.{
  String, Option-cases, Dict, insert, ◌++◌, Option, none, some, List, [], ◌∷◌, ◌≡◌, ◌≢◌, refl, ◌⊎◌,
  inl, inr, arith,
}
use throttlekit_py.Errors.{Exn, Result, ok, err}
use throttlekit_py.Vendor.{
  Core, Repo, artifacts, system_exit, missing_artifact, join_lines, digest_line, copy_artifacts,
  vendor_scripts, sync_scripts, after_artifacts, sync_main,
}

-- The manifest of the scripts is missing or does not parse.
abbrev pub NoScripts : Core → Option String → Type 0
NoScripts core o =
    (o ≡ none) ⊎ ((text : String) × (e : Exn) × (o ≡ some text) × (core.json_loads text ≡ err e))

-- An artifact or the scripts' manifest is missing, or the manifest does not parse.
abbrev pub IsIncomplete : Core → Type 0
IsIncomplete core =
    (core.file_at "wire/throttlekit.proto" ≡ none)
    ⊎ (core.file_at "wire/vectors/golden-vectors.json" ≡ none)
    ⊎ NoScripts core (core.file_at "wire/scripts/manifest.json")

abbrev Kept : Repo → Result (Unit {0}) × Repo → Type 0
Kept repo out = (out.0 ≢ ok tt) × (out.1.scripts ≡ repo.scripts)

sync_scripts-Kept :
    (core : Core) (o : Option String) (repo : Repo)
    → NoScripts core o
    → Kept repo (sync_scripts core o repo)
unfolding sync_scripts vendor_scripts
sync_scripts-Kept core o repo h = ground arith

after_artifacts-Kept :
    (core : Core) (out : Result (List String) × Dict String) (repo : Repo)
    → ((e : Exn) × (out.0 ≡ err e)) ⊎ NoScripts core (core.file_at "wire/scripts/manifest.json")
    → Kept repo (after_artifacts core out repo)
unfolding after_artifacts
after_artifacts-Kept core (err e, contract) repo h = ((λ q. absurd (ground arith)), refl)
after_artifacts-Kept core (ok lines, contract) repo (inl (e, q)) = absurd (ground arith)
after_artifacts-Kept core (ok lines, contract) repo (inr missing) =
    sync_scripts-Kept core (core.file_at "wire/scripts/manifest.json")
      (record repo { contract = insert "manifest.sha256" (join_lines lines) contract }) missing

copy_artifacts-raises :
    (core : Core) (src dst : String) (before after : List (String × String)) (lines : List String)
    (contract : Dict String)
    → core.file_at src ≡ none
    → (e : Exn) × ((copy_artifacts core (before ++ ((src, dst) ∷ after)) lines contract).0 ≡ err e)
unfolding copy_artifacts
copy_artifacts-raises core src dst [] after lines contract h =
    (system_exit (missing_artifact core src), rw (h, copy_artifacts) refl)
copy_artifacts-raises core src dst ((src', dst') ∷ before) after lines contract h =
    elim (Option-cases (core.file_at src')) [
      | inl missing ↦ (system_exit (missing_artifact core src'), rw (missing, copy_artifacts) refl)
      | inr (text, found) ↦
          let rest =
            copy_artifacts-raises core src dst before after
              (lines ++ (digest_line core dst' text ∷ [])) (insert dst' text contract) h in
          (rest.0, rw (found, copy_artifacts) rest.1)
    ]

-- From an incomplete checkout the run raises, and the scripts' directory stays as it was.
pub incomplete_core_keeps_scripts :
    (core : Core) (repo : Repo)
    → IsIncomplete core
    → ((sync_main core repo).0 ≢ ok tt) × ((sync_main core repo).1.scripts ≡ repo.scripts)
unfolding sync_main
incomplete_core_keeps_scripts core repo h =
    let out = copy_artifacts core artifacts [] repo.contract in
    after_artifacts-Kept core out repo (elim h [
      | inl proto ↦ inl (
          copy_artifacts-raises core "wire/throttlekit.proto" "throttlekit.proto" []
            (("wire/vectors/golden-vectors.json", "golden-vectors.json") ∷ []) [] repo.contract
            proto)
      | inr (inl vectors) ↦ inl (
          copy_artifacts-raises core "wire/vectors/golden-vectors.json" "golden-vectors.json"
            (("wire/throttlekit.proto", "throttlekit.proto") ∷ []) [] [] repo.contract vectors)
      | inr (inr scripts) ↦ inr scripts
    ])
