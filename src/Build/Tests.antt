-- ===== src/Build/Tests.antt =====
-- A build whose protoc writes both stubs, and a check without a wheel and of one without stubs.
use throttlekit_py.Base.{
  String, Dict, lookup, insert, true, if◌then◌else◌, same_text, some, [], ◌∷◌, ◌≡◌, refl, sym, ap,
  ◌∙◌, lookup-insert,
}
use throttlekit_py.Errors.{Result, ok}
use throttlekit_py.Build.{
  package_text, Tree, starts_with, replace_from, made_relative, rewrite, after_protoc, generate,
  gen_main, initialize, missing_from, check_wheels,
}
use throttlekit_py.Build.Stubs.{joined, import_line, relative_line, built_stubs_relative}

-- Only the import is replaced.
relative_import :
    made_relative "import grpc\nimport throttlekit_pb2 as throttlekit__pb2\n"
    ≡ "import grpc\nfrom . import throttlekit_pb2 as throttlekit__pb2\n"
unfolding made_relative replace_from starts_with
relative_import = refl

abbrev writes_both : String → Dict String → Result (Unit {0}) × Dict String
writes_both proto files = (
  ok tt,
  insert "throttlekit_pb2_grpc.py" "import grpc\nimport throttlekit_pb2 as throttlekit__pb2\n"
      (insert "throttlekit_pb2.py" proto files),
)

abbrev source_tree : Tree
source_tree = record { proto = some "syntax"; generated = [] }

abbrev built : Tree
built = (initialize writes_both "contract/throttlekit.proto" true source_tree).1

no_wheel : (check_wheels [] ≡ 2) × (check_wheels (("throttlekit/__init__.py" ∷ []) ∷ []) ≡ 1)
unfolding check_wheels missing_from
no_wheel = (refl, refl)

built_ok : initialize writes_both "contract/throttlekit.proto" true source_tree ≡ (ok tt, built)
unfolding initialize gen_main generate after_protoc rewrite insert lookup
built_ok = refl

built_stubs_relative_example :
    (proto before after : String) × (written : Dict String) × (some "syntax" ≡ some proto)
    × (writes_both proto (insert "__init__.py" package_text []) ≡ (ok tt, written))
    × (lookup "throttlekit_pb2_grpc.py" written ≡ some (joined before (joined import_line after)))
    × ((file : String)
        → lookup file built.generated ≡ (
            if same_text "throttlekit_pb2_grpc.py" file
            then some (joined before (joined relative_line after))
            else lookup file written))
unfolding starts_with
built_stubs_relative_example =
    built_stubs_relative writes_both "contract/throttlekit.proto" true source_tree built
      (λ proto files written e. (
        "import grpc\n",
        "\n",
        ap (λ (out : Result (Unit {0}) × Dict String). lookup "throttlekit_pb2_grpc.py" out.1)
              (sym e)
            ∙ lookup-insert "throttlekit_pb2_grpc.py" "throttlekit_pb2_grpc.py"
                "import grpc\nimport throttlekit_pb2 as throttlekit__pb2\n"
                (insert "throttlekit_pb2.py" proto files),
        refl,
        refl,
      ))
      built_ok
