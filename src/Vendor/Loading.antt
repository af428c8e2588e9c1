-- ===== src/Vendor/Loading.antt =====
-- _contract.py over the scripts that scripts/sync_contract.py has vendored.
use throttlekit_py.Base.{
  String, same_text, Dict, lookup, true, ◌||◌, ◌&&◌, Bool-cases, Option, none, some, List, [], ◌∷◌,
  ◌≡◌, refl, sym, ap, ◌∙◌, eq_iff, arith, inl, inr, if◌then◌else◌,
}
use throttlekit_py.Errors.{ok}
use throttlekit_py.Contract.{Entry, Files, load, script}
use throttlekit_py.Vendor.{Core, Repo, script_path, sync_main}
use throttlekit_py.Vendor.Vendored.{declared, sync_vendors_scripts}

abbrev or_empty : Option String → String
or_empty none = ""
or_empty (some text) = text

-- The files of the vendored directory, and those of the core's, as the loader reads them.
abbrev pub vendored_files : (String → String) → Option (Dict String) → Files
vendored_files sha1 none = record { read_text = λ file. ""; sha1_hex = sha1 }
vendored_files sha1 (some scripts) = record {
  read_text = λ file. or_empty (lookup file scripts);
  sha1_hex = sha1;
}

abbrev pub core_files : (String → String) → Core → Files
core_files sha1 core = record {
  read_text = λ file. or_empty (core.file_at (script_path file));
  sha1_hex = sha1;
}

same_scripts :
    (f g : Files) (entries : List Entry) (strategy role : String)
    → f.sha1_hex ≡ g.sha1_hex
    → ((file : String) → declared file entries ≡ true → f.read_text file ≡ g.read_text file)
    → script f entries strategy role ≡ script g entries strategy role
unfolding script load
same_scripts f g [] strategy role sha same = refl
same_scripts f g (entry ∷ entries) strategy role sha same =
    let text = same entry.file (ground (arith, eq_iff entry.file entry.file)) in
    let rest = same_scripts f g entries strategy role sha (λ file h. same file (ground arith)) in
    elim (Bool-cases (same_text entry.strategy strategy && same_text entry.role role)) [
      | inl fits ↦ rw fits (rw (text, sha) refl)
      | inr other ↦ rw other rest
    ]

some_inj : {A : Type 0} {a b : A} → some a ≡ some b → a ≡ b
some_inj e = cc

ok_inj : {A : Type 0} {a b : A} → ok a ≡ ok b → a ≡ b
ok_inj e = cc

declared_lem :
    (core : Core) (entries : List Entry) (scripts : Dict String) (file : String)
    → declared file entries ≡ true
    → lookup file scripts ≡ (
        if same_text "manifest.json" file || declared file entries
        then core.file_at (script_path file)
        else none)
    → lookup file scripts ≡ core.file_at (script_path file)
declared_lem core entries scripts file h e = ground arith

-- The text that the loader reads as the manifest.
abbrev pub vendored_manifest : Option (Dict String) → Option String
vendored_manifest none = none
vendored_manifest (some scripts) = lookup "manifest.json" scripts

-- After a run of sync_contract.py that does not raise, the loader reads the manifest of the core, and it
-- finds for each strategy and role what it would find in the core's own directory: the same script,
-- under the SHA-1 of the same text, or `KeyError`.
pub vendored_script :
    (core : Core) (repo repo' : Repo) (sha1 : String → String) (text strategy role : String)
    (entries : List Entry)
    → sync_main core repo ≡ (ok tt, repo')
    → core.file_at "wire/scripts/manifest.json" ≡ some text
    → core.json_loads text ≡ ok (some entries)
    → (vendored_manifest repo'.scripts ≡ some text)
      × (script (vendored_files sha1 repo'.scripts) entries strategy role
          ≡ script (core_files sha1 core) entries strategy role)
vendored_script core repo repo' sha1 text strategy role entries e is_manifest parsed =
    let v = sync_vendors_scripts core repo repo' e in
    let one_text : v.text ≡ text = some_inj (sym v.is_manifest ∙ is_manifest) in
    let one_list : v.entries ≡ entries =
      some_inj (ok_inj (sym v.parsed ∙ ap core.json_loads one_text ∙ parsed)) in
    rw v.is_scripts (
      v.exactly "manifest.json" ∙ is_manifest,
      same_scripts (vendored_files sha1 (some v.scripts)) (core_files sha1 core) entries strategy
          role refl
          (λ file h.
            ap or_empty
              (declared_lem core v.entries v.scripts file (rw one_list h) (v.exactly file))),
    )
