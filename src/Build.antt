-- ===== src/Build.antt =====
-- The tools of the build: scripts/gen_proto.py, hatch_build.py and scripts/check_wheel_stubs.py. What
-- protoc writes is a parameter, and so are the wheels in dist/. Printing is left out.
pub mod Stubs
mod Tests
use Prim.Native.Char.{code}
use throttlekit_py.Base.{
  ℕ, zero, suc, ◌-◌, String, text_append, same_text, ◌==◌, Dict, lookup, insert, Bool, true, false,
  not, ◌&&◌, ◌||◌, Option, none, some, List, [], ◌∷◌, if◌then◌else◌, length,
}
use throttlekit_py.Errors.{Exn, Result, ok, err, foreign}

-- The vendored proto, and the files of `src/throttlekit/_generated`.
pub record Tree : Type 0 where
  pub proto : Option String
  pub generated : Dict String

unfoldable pub starts_with : String → String → Bool
starts_with String.[] s = true
starts_with (String.◌∷◌ c part) String.[] = false
starts_with (String.◌∷◌ c part) (String.◌∷◌ d s) = code c == code d && starts_with part s

abbrev length_of : String → ℕ
length_of String.[] = 0
length_of (String.◌∷◌ c s) = suc (length_of s)

-- `s.replace(old, new)` from a place where so many characters more belong to an occurrence.
unfoldable pub replace_from : String → String → ℕ → String → String
unfolding starts_with
replace_from old new n String.[] = ""
replace_from old new (suc n) (String.◌∷◌ c s) = replace_from old new n s
replace_from old new zero (String.◌∷◌ c s) = elim (starts_with old (String.◌∷◌ c s)) [
  | true ↦ text_append new (replace_from old new (length_of old - 1) s)
  | false ↦ String.◌∷◌ c (replace_from old new zero s)
]

-- The `text.replace` of gen_proto.py.
unfoldable pub made_relative : String → String
unfolding replace_from
made_relative text =
    replace_from "import throttlekit_pb2 as throttlekit__pb2"
      "from . import throttlekit_pb2 as throttlekit__pb2" 0 text

abbrev pub package_text : String
package_text =
    "\"\"\"Generated gRPC stubs for throttlekit.v1 — do not edit; see scripts/gen_proto.py.\"\"\"\n"

-- The text of `SystemExit`, with the path of the proto.
abbrev pub missing_proto : String → Exn
missing_proto path = foreign "SystemExit" (
    text_append "vendored proto missing: "
      (text_append path "\nrun `python scripts/sync_contract.py` first"))

-- `read_text`, the replacement and `write_text`.
unfoldable pub rewrite : Option String → Dict String → Result (Unit {0}) × Dict String
rewrite none generated = (err (foreign "FileNotFoundError" "throttlekit_pb2_grpc.py"), generated)
rewrite (some text) generated =
    (ok tt, insert "throttlekit_pb2_grpc.py" (made_relative text) generated)

-- What follows `subprocess.run(cmd, check=True)`.
unfoldable pub after_protoc : Result (Unit {0}) × Dict String → Result (Unit {0}) × Dict String
unfolding rewrite
after_protoc (err e, generated) = (err e, generated)
after_protoc (ok u, generated) = rewrite (lookup "throttlekit_pb2_grpc.py" generated) generated

-- A failed run of a script makes `subprocess.run(…, check=True)` raise.
abbrev pub checked : Result (Unit {0}) × Tree → Result (Unit {0}) × Tree
checked (ok u, tree) = (ok tt, tree)
checked (err e, tree) = (err (foreign "CalledProcessError" "scripts/gen_proto.py"), tree)

module _ (protoc : String → Dict String → Result (Unit {0}) × Dict String) (path : String) where
  -- `main` of gen_proto.py, once the proto has been looked for.
  unfoldable pub generate : Option String → Tree → Result (Unit {0}) × Tree
  unfolding after_protoc
  generate none tree = (err (missing_proto path), tree)
  generate (some text) tree =
      let (r, generated) =
        after_protoc (protoc text (insert "__init__.py" package_text tree.generated)) in
      (r, record tree { generated = generated })

  unfoldable pub gen_main : Tree → Result (Unit {0}) × Tree
  unfolding generate
  gen_main tree = generate tree.proto tree

  -- `CustomBuildHook.initialize`: whether scripts/gen_proto.py is there.
  unfoldable pub initialize : Bool → Tree → Result (Unit {0}) × Tree
  unfolding gen_main
  initialize there tree = if there then checked (gen_main tree) else (
    err (foreign "FileNotFoundError" "cannot generate gRPC stubs: scripts/gen_proto.py is missing"),
    tree,
  )

-- `REQUIRED`
abbrev pub required : List String
required =
    "throttlekit/_generated/throttlekit_pb2.py" ∷ "throttlekit/_generated/throttlekit_pb2_grpc.py"
    ∷ []

abbrev pub has_name : String → List String → Bool
has_name name [] = false
has_name name (n ∷ names) = same_text n name || has_name name names

-- `[name for name in REQUIRED if name not in names]`
unfoldable pub missing_from : List String → List String → List String
missing_from names [] = []
missing_from names (name ∷ rest) =
    if not (has_name name names) then name ∷ missing_from names rest else missing_from names rest

abbrev pub exit_for : List String → ℕ
exit_for [] = 0
exit_for (name ∷ missing) = 1

-- `main` of check_wheel_stubs.py, on the names in each wheel of dist/ in the order of `glob`: the exit
-- status.
unfoldable pub check_wheels : List (List String) → ℕ
unfolding missing_from
check_wheels [] = 2
check_wheels (names ∷ wheels) = exit_for (missing_from names required)
