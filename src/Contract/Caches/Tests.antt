-- ===== src/Contract/Caches/Tests.antt =====
-- Cached look-ups over a manifest of two scripts, of which one file cannot be read.
use throttlekit_py.Base.{
  Bool-cases, inl, inr, ℕ, suc, ◌≤◌, String, text_append, inl, inr, same_text, List, [], ◌∷◌, ◌≡◌,
  refl, if◌then◌else◌,
}
use throttlekit_py.Errors.{Exn, Result, ok, err, key_error, runtime_error}
use throttlekit_py.Contract.{Entry, Files, load, script}
use throttlekit_py.Contract.Caches.{
  Manifest, Reader, empty_caches, first_match, cached_manifest, from_manifest, cached_script,
  contract_version,
}
use throttlekit_py.Contract.Caches.Reads.{
  Stored, IsAsStored, AllAsStored, look_ups, look_ups_uncached,
}

abbrev gcra : Entry
gcra = record {
  name = "gcra.check";
  strategy = "gcra";
  role = "check";
  file = "gcra.check.lua";
  argv = [];
}

abbrev gone : Entry
gone = record gcra { role = "read"; file = "gone.lua" }

abbrev vendored : Manifest
vendored = record { contract_version = "1"; scripts = gone ∷ gcra ∷ [] }

abbrev files : Files
files = record { read_text = λ file. text_append "-- " file; sha1_hex = λ text. text }

abbrev text_or_raise : String → Result String
text_or_raise file =
    if same_text file "gone.lua" then err runtime_error else ok (files.read_text file)

-- The world counts the readings of the manifest.
abbrev reader : Reader ℕ
reader = record {
  read_manifest = λ n. (ok vendored, suc n);
  read_text = λ file n. (text_or_raise file, n);
  sha1_hex = λ text. text;
}

abbrev IsIo : Exn → Type 0
IsIo e = e ≡ runtime_error

text_read_lem :
    (file : String) (n : ℕ)
    → IsAsStored IsIo (ok (files.read_text file)) (reader.read_text file n).0
text_read_lem file n = elim (Bool-cases (same_text file "gone.lua")) [
  | inl same ↦ rw same (inr refl)
  | inr other ↦ rw other refl
]

abbrev stored : Stored reader files vendored IsIo
stored = record {
  parses = λ n. n;
  same_digest = λ text. refl;
  manifest_read = λ n. refl;
  text_read = text_read_lem;
  parse_counted = λ n. refl;
  text_uncounted = λ file n. refl;
}

abbrev calls : List (String × String)
calls = ("gcra", "check") ∷ ("gcra", "read") ∷ ("gcra", "check") ∷ ("other", "check") ∷ []

look_ups_uncached_example :
    let (rs, c', w') = look_ups reader calls empty_caches 0 in
    AllAsStored IsIo (script files vendored.scripts) calls rs × (w' ≤ 1)
look_ups_uncached_example = look_ups_uncached reader files vendored IsIo stored calls 0

looked_up :
    let (rs, c', w') = look_ups reader calls empty_caches 0 in
    (rs ≡ (ok (load files gcra) ∷ err runtime_error ∷ ok (load files gcra) ∷ err key_error ∷ []))
    × (w' ≡ 1)
unfolding cached_script from_manifest cached_manifest first_match load
looked_up = (refl, refl)

versioned : (contract_version reader empty_caches 0).0 ≡ ok "1"
unfolding contract_version cached_manifest
versioned = refl
