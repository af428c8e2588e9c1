-- ===== src/Vendor/Vendored.antt =====
-- What scripts/sync_contract.py leaves in src/throttlekit/_scripts, and what _contract.py finds there.
use throttlekit_py.Base.{
  String, same_text, Dict, lookup, insert, lookup-insert, eq_iff, Bool, false, ◌||◌, Bool-cases,
  Option-cases, Option, none, some, List, [], ◌∷◌, ◌≡◌, refl, sym, ◌∙◌, ap, inl, inr, arith,
  if◌then◌else◌,
}
use throttlekit_py.Errors.{Result, ok, err}
use throttlekit_py.Contract.{Entry}
use throttlekit_py.Vendor.{
  Core, Repo, artifacts, script_path, copy_artifacts, copy_scripts, vendor_scripts, sync_scripts,
  after_artifacts, sync_main,
}

-- A file that the manifest declares.
abbrev pub declared : String → List Entry → Bool
declared file [] = false
declared file (entry ∷ entries) = same_text entry.file file || declared file entries

module _ (core : Core) where
  copy_scripts-lookup :
      (entries : List Entry) (scripts scripts' : Dict String) (file : String)
      → copy_scripts core entries scripts ≡ (ok tt, scripts')
      → lookup file scripts'
        ≡ (if declared file entries then core.file_at (script_path file) else lookup file scripts)
  unfolding copy_scripts
  copy_scripts-lookup [] scripts scripts' file e =
      ap (λ (out : Result (Unit {0}) × Dict String). lookup file out.1) (sym e)
  copy_scripts-lookup (entry ∷ entries) scripts scripts' file e =
      elim (Option-cases (core.file_at (script_path entry.file))) [
        | inl missing ↦ absurd (let raised = rw (missing, copy_scripts) at e in ground arith)
        | inr (text, found) ↦
            let copied = rw (found, copy_scripts) at e in
            let rest =
              copy_scripts-lookup entries (insert entry.file text scripts) scripts' file copied in
            elim (Bool-cases (same_text entry.file file)) [
              | inl same ↦
                  let here : entry.file ≡ file = (eq_iff entry.file file).0 same in
                  let here_is : core.file_at (script_path file) ≡ some text = rw here at found in
                  ground (arith, rest, lookup-insert entry.file file text scripts)
              | inr other ↦
                  rw other (rest ∙ rw (lookup-insert entry.file file text scripts, other) refl)
            ]
      ]

  -- The directory of scripts after a run that does not raise.
  pub record Vendored (repo' : Repo) : Type 0 where
    pub text : String
    pub entries : List Entry
    pub scripts : Dict String
    pub is_manifest : core.file_at "wire/scripts/manifest.json" ≡ some text
    pub parsed : core.json_loads text ≡ ok (some entries)
    pub is_scripts : repo'.scripts ≡ some scripts
    pub exactly :
        (file : String)
        → lookup file scripts ≡ (
            if same_text "manifest.json" file || declared file entries
            then core.file_at (script_path file)
            else none)

  vendored_lookup :
      (text : String) (entries : List Entry) (scripts' : Dict String) (file : String)
      → core.file_at "wire/scripts/manifest.json" ≡ some text
      → copy_scripts core entries (insert "manifest.json" text []) ≡ (ok tt, scripts')
      → lookup file scripts' ≡ (
          if same_text "manifest.json" file || declared file entries
          then core.file_at (script_path file)
          else none)
  unfolding lookup insert
  vendored_lookup text entries scripts' file is_manifest copied =
      let rest =
        copy_scripts-lookup entries (insert "manifest.json" text []) scripts' file copied in
      elim (Bool-cases (same_text "manifest.json" file)) [
        | inl same ↦
            let here_is : core.file_at (script_path file) ≡ some text =
              ap (λ (f : String). core.file_at (script_path f))
                (sym ((eq_iff "manifest.json" file).0 same))
              ∙ is_manifest in
            ground (arith, rest)
        | inr other ↦ ground (arith, rest)
      ]

  vendor_scripts-Vendored :
      (text : String) (loaded : Result (Option (List Entry))) (repo repo' : Repo)
      → core.file_at "wire/scripts/manifest.json" ≡ some text
      → core.json_loads text ≡ loaded
      → vendor_scripts core text loaded repo ≡ (ok tt, repo')
      → Vendored repo'
  unfolding vendor_scripts
  vendor_scripts-Vendored text (err x) repo repo' is_manifest parsed e = absurd (ground arith)
  vendor_scripts-Vendored text (ok none) repo repo' is_manifest parsed e = absurd (ground arith)
  vendor_scripts-Vendored text (ok (some entries)) repo repo' is_manifest parsed e =
      let copied = copy_scripts core entries (insert "manifest.json" text []) in
      record {
        text = text;
        entries = entries;
        scripts = copied.1;
        is_manifest = is_manifest;
        parsed = parsed;
        is_scripts = ground arith;
        exactly = λ file. vendored_lookup text entries copied.1 file is_manifest (ground arith);
      }

  sync_scripts-Vendored :
      (o : Option String) (repo repo' : Repo)
      → core.file_at "wire/scripts/manifest.json" ≡ o
      → sync_scripts core o repo ≡ (ok tt, repo')
      → Vendored repo'
  unfolding sync_scripts
  sync_scripts-Vendored none repo repo' is_manifest e = absurd (ground arith)
  sync_scripts-Vendored (some text) repo repo' is_manifest e =
      vendor_scripts-Vendored text (core.json_loads text) repo repo' is_manifest refl e

  after_artifacts-Vendored :
      (out : Result (List String) × Dict String) (repo repo' : Repo)
      → after_artifacts core out repo ≡ (ok tt, repo')
      → Vendored repo'
  unfolding after_artifacts
  after_artifacts-Vendored (err x, contract) repo repo' e = absurd (ground arith)
  after_artifacts-Vendored (ok lines, contract) repo repo' e =
      sync_scripts-Vendored (core.file_at "wire/scripts/manifest.json") _ repo' refl e

  -- A run that does not raise leaves in the scripts' directory the manifest and the files that the
  -- manifest declares, each as the core has it, and nothing else, whatever was there before.
  pub sync_vendors_scripts :
      (repo repo' : Repo) → sync_main core repo ≡ (ok tt, repo') → Vendored repo'
  unfolding sync_main
  sync_vendors_scripts repo repo' e =
      after_artifacts-Vendored (copy_artifacts core artifacts [] repo.contract) repo repo' e
