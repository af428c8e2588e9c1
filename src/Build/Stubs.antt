-- ===== src/Build/Stubs.antt =====
-- The stubs that a build generates, and what the check of a wheel reports.
use mathlib.Core.Option.{some-injective}
use text.Mathlib.TextLemmas.{nil-append, cons-append}
use throttlekit_py.Base.{
  String, same_text, Dict, lookup, insert, lookup-insert, Bool, true, false, ◌&&◌, not, text_append,
  Option-cases, Option, none, some, List, ◌∷◌, ◌≡◌, refl, sym, ◌∙◌, ap, inl, inr, arith,
  if◌then◌else◌,
}
use throttlekit_py.Errors.{Result, ok, err}
use throttlekit_py.Build.{
  Tree, made_relative, package_text, rewrite, after_protoc, checked, generate, gen_main, initialize,
  has_name, missing_from, check_wheels, starts_with, replace_from,
}

-- The second text after the first.
abbrev pub joined : String → String → String
joined String.[] rest = rest
joined (String.◌∷◌ c s) rest = String.◌∷◌ c (joined s rest)

-- `old` begins nowhere in the text.
abbrev pub absent : String → String → Bool
absent old String.[] = true
absent old (String.◌∷◌ c s) = not (starts_with old (String.◌∷◌ c s)) && absent old s

-- `old` does not begin in the first text, where the other follows it.
abbrev pub absent_before : String → String → String → Bool
absent_before old String.[] rest = true
absent_before old (String.◌∷◌ c s) rest =
    not (starts_with old (String.◌∷◌ c (joined s rest))) && absent_before old s rest

joined_lem : (s rest : String) → text_append s rest ≡ joined s rest
joined_lem String.[] rest = nil-append rest
joined_lem (String.◌∷◌ c s) rest = cons-append c s rest ∙ ap (String.◌∷◌ c) (joined_lem s rest)

and_parts : {x y : Bool} → (not x && y) ≡ true → (x ≡ false) × (y ≡ true)
and_parts {x = true} e = absurd (ground arith)
and_parts {x = false} e = (refl, e)

module _ (old new : String) where
  replace_absent : (s : String) → absent old s ≡ true → replace_from old new 0 s ≡ s
  unfolding replace_from
  replace_absent String.[] clear = refl
  replace_absent (String.◌∷◌ c s) clear =
      let (nowhere, clear') = and_parts {x = starts_with old (String.◌∷◌ c s)} clear in
      rw (replace_from, nowhere, replace_absent s clear') refl

  replace_absent_before :
      (s rest : String)
      → absent_before old s rest ≡ true
      → replace_from old new 0 (joined s rest) ≡ joined s (replace_from old new 0 rest)
  unfolding replace_from
  replace_absent_before String.[] rest clear = refl
  replace_absent_before (String.◌∷◌ c s) rest clear =
      let (nowhere, clear') =
        and_parts {x = starts_with old (String.◌∷◌ c (joined s rest))} clear in
      rw (replace_from, nowhere, replace_absent_before s rest clear') refl

-- The import line of the stubs as protoc writes it.
abbrev pub import_line : String
import_line = "import throttlekit_pb2 as throttlekit__pb2"

abbrev pub relative_line : String
relative_line = "from . import throttlekit_pb2 as throttlekit__pb2"

-- One import line, and no other place that looks like it, becomes relative.
made_relative_lem :
    (before after : String)
    → absent_before import_line before (joined import_line after) ≡ true
    → absent import_line after ≡ true
    → made_relative (joined before (joined import_line after))
      ≡ joined before (joined relative_line after)
unfolding made_relative replace_from starts_with
made_relative_lem before after clear clear' =
    replace_absent_before import_line relative_line before (joined import_line after) clear
    ∙ ap (joined before) (
        joined_lem relative_line (replace_from import_line relative_line 0 after)
        ∙ ap (joined relative_line) (replace_absent import_line relative_line after clear'))

after_protoc_rewrites :
    (out : Result (Unit {0}) × Dict String) (generated : Dict String)
    → after_protoc out ≡ (ok tt, generated)
    → (out.0 ≡ ok tt)
      × ((text : String) × (lookup "throttlekit_pb2_grpc.py" out.1 ≡ some text)
          × (generated ≡ insert "throttlekit_pb2_grpc.py" (made_relative text) out.1))
unfolding after_protoc
after_protoc_rewrites (err e, files) generated h = absurd (ground arith)
after_protoc_rewrites (ok u, files) generated h =
    elim (Option-cases (lookup "throttlekit_pb2_grpc.py" files)) [
      | inl gone ↦ absurd (let raised = rw (gone, rewrite) at h in ground arith)
      | inr (text, found) ↦
          (refl, (text, found, (let done = rw (found, rewrite) at h in ground arith)))
    ]

-- The generated files of a run that does not raise: protoc has not failed on the proto, and what it wrote
-- as the gRPC stubs is there with its import made relative.
pub record Generated (protoc : String → Dict String → Result (Unit {0}) × Dict String)
    (tree tree' : Tree) : Type 0 where
  pub proto : String
  pub is_proto : tree.proto ≡ some proto
  pub written : Dict String
  pub is_written :
      protoc proto (insert "__init__.py" package_text tree.generated) ≡ (ok tt, written)
  pub stubs : String
  pub is_stubs : lookup "throttlekit_pb2_grpc.py" written ≡ some stubs
  pub rewritten : tree'.generated ≡ insert "throttlekit_pb2_grpc.py" (made_relative stubs) written

checked_ok :
    (out : Result (Unit {0}) × Tree) (tree : Tree)
    → checked out ≡ (ok tt, tree)
    → out ≡ (ok tt, tree)
checked_ok (ok u, t) tree h = h
checked_ok (err e, t) tree h = absurd (ground arith)

module _ (protoc : String → Dict String → Result (Unit {0}) × Dict String) (path : String) where
  generate-Generated :
      (o : Option String) (tree tree' : Tree)
      → tree.proto ≡ o
      → generate protoc path o tree ≡ (ok tt, tree')
      → Generated protoc tree tree'
  unfolding generate
  generate-Generated none tree tree' is_proto h = absurd (ground arith)
  generate-Generated (some proto) tree tree' is_proto h =
      let out = protoc proto (insert "__init__.py" package_text tree.generated) in
      let (fine, (stubs, found, done)) =
        after_protoc_rewrites out tree'.generated
          (ap (λ (end : Result (Unit {0}) × Tree). (end.0, end.1.generated)) h) in
      record {
        proto = proto;
        is_proto = is_proto;
        written = out.1;
        is_written = ap (λ r. (r, out.1)) fine;
        stubs = stubs;
        is_stubs = found;
        rewritten = done;
      }

  initialize-Generated :
      (there : Bool) (tree tree' : Tree)
      → initialize protoc path there tree ≡ (ok tt, tree')
      → Generated protoc tree tree'
  unfolding initialize gen_main
  initialize-Generated true tree tree' h =
      generate-Generated tree.proto tree tree' refl (checked_ok (gen_main protoc path tree) tree' h)
  initialize-Generated false tree tree' h = absurd (ground arith)

-- The wheel is reported exactly if it lacks one of the stubs.
check_wheels_lem :
    (names : List String) (wheels : List (List String))
    → check_wheels (names ∷ wheels) ≡ (
        if has_name "throttlekit/_generated/throttlekit_pb2.py" names
          && has_name "throttlekit/_generated/throttlekit_pb2_grpc.py" names
        then 0
        else 1)
unfolding check_wheels missing_from
check_wheels_lem names wheels = ground arith

-- What the source says of protoc: if it does not fail, the gRPC stubs that it writes have one absolute import.
abbrev pub WritesImport : (String → Dict String → Result (Unit {0}) × Dict String) → Type 0
WritesImport protoc =
    (proto : String) (files written : Dict String)
    → protoc proto files ≡ (ok tt, written)
    → (before : String) × (after : String) × (lookup "throttlekit_pb2_grpc.py" written
        ≡ some (joined before (joined import_line after)))
      × (absent_before import_line before (joined import_line after) ≡ true)
      × (absent import_line after ≡ true)

-- Where the gRPC stubs that protoc writes, if it does not fail, have the absolute import in one place: if the hook
-- does not raise, protoc has not failed on the proto, in a directory with the package's __init__.py; and the
-- directory is then as protoc has left it, but that the import of the gRPC stubs is relative, and what
-- stands before and after it is as it was.
pub built_stubs_relative :
    (protoc : String → Dict String → Result (Unit {0}) × Dict String) (path : String) (there : Bool)
    (tree tree' : Tree)
    → WritesImport protoc
    → initialize protoc path there tree ≡ (ok tt, tree')
    → (proto before after : String) × (written : Dict String) × (tree.proto ≡ some proto)
      × (protoc proto (insert "__init__.py" package_text tree.generated) ≡ (ok tt, written))
      × (lookup "throttlekit_pb2_grpc.py" written ≡ some (joined before (joined import_line after)))
      × ((file : String)
          → lookup file tree'.generated ≡ (
              if same_text "throttlekit_pb2_grpc.py" file
              then some (joined before (joined relative_line after))
              else lookup file written))
built_stubs_relative protoc path there tree tree' writes h =
    let g = initialize-Generated protoc path there tree tree' h in
    let (before, after, stubs, clear, clear') =
      writes g.proto (insert "__init__.py" package_text tree.generated) g.written g.is_written in
    let same : g.stubs ≡ joined before (joined import_line after) =
      some-injective _ _ (sym g.is_stubs ∙ stubs) in
    (
      g.proto,
      before,
      after,
      g.written,
      g.is_proto,
      g.is_written,
      stubs,
      λ file.
          ap (lookup file) g.rewritten
          ∙ lookup-insert "throttlekit_pb2_grpc.py" file (made_relative g.stubs) g.written
          ∙ ap
              (λ text.
                if same_text "throttlekit_pb2_grpc.py" file
                then some text
                else lookup file g.written)
              (ap made_relative same ∙ made_relative_lem before after clear clear'),
    )
