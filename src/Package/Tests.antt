-- ===== src/Package/Tests.antt =====
-- The package with each optional dependency installed, and with none.
use throttlekit_py.Base.{
  ℕ, suc, String, Dict, lookup, insert, true, some, none, List, [], ◌∷◌, ◌≡◌, refl, Option,
  lookup-insert, eq_iff, arith,
}
use throttlekit_py.Errors.{Result, ok, err, foreign}
use throttlekit_py.Package.{
  exported, import_statements, declared, contains, lazy_modules, Imports, getattr_from,
  module_getattr, after_import, run_imports, import_package, attribute,
}
use throttlekit_py.Package.Exports.{has, IsInstalled, exports_resolve}

-- Each name is bound to itself.
abbrev own_names : List String → Dict String
own_names [] = []
own_names (name ∷ names) = insert name name (own_names names)

abbrev module_of : Option (List String) → ℕ → Result (Dict String) × ℕ
module_of none n = (err (foreign "ModuleNotFoundError" "no such module"), n)
module_of (some names) n = (ok (own_names names), suc n)

-- Each module has the names that its file declares; an import adds one to the world.
abbrev installed : Imports String ℕ
installed = record { import_module = λ file. module_of (lookup file declared) }

own_names-has :
    (names : List String) (name : String)
    → contains name names ≡ true
    → has (own_names names) name ≡ true
own_names-has [] name e = absurd (ground arith)
own_names-has (n ∷ names) name e =
    ground
      (arith, lookup-insert n name n (own_names names), own_names-has names name, eq_iff n name)

installed-IsInstalled : IsInstalled installed
installed-IsInstalled file names n found =
    (own_names names, suc n, rw found refl, own_names-has names)

exports_resolve_example :
    (bound : Dict String) × ((import_package installed 0).0 ≡ ok bound)
    × ((name : String) (v : ℕ)
        → contains name exported ≡ true
        → (value : String) × ((attribute installed bound name v).0 ≡ ok value))
exports_resolve_example = exports_resolve installed 0 installed-IsInstalled

-- Without a module the import of the package raises, and so does a backend that is asked for.
abbrev bare : Imports String ℕ
bare = record { import_module = λ file w. (err (foreign "ImportError" "no grpc"), w) }

light_import :
    ((import_package bare 0).0 ≡ err (foreign "ImportError" "no grpc"))
    × ((attribute bare (("Decision", "Decision") ∷ []) "Decision" 0).0 ≡ ok "Decision")
    × ((attribute bare [] "ServiceBackend" 0).0 ≡ err (foreign "ImportError" "no grpc"))
unfolding import_package run_imports after_import import_statements attribute module_getattr
    getattr_from lazy_modules lookup
light_import = (refl, refl, refl)
