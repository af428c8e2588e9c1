-- ===== src/Package/Exports.antt =====
-- Which names of the package resolve (src/throttlekit/__init__.py).
use throttlekit_py.Base.{
  String, same_text, Dict, lookup, keys, eq_iff, Bool, true, false, ◌||◌, ◌&&◌, Bool-cases,
  Option-cases, insert, lookup-insert, Option, none, some, List, [], ◌∷◌, ◌++◌, ◌≡◌, refl, inl, inr,
  arith,
}
use throttlekit_py.Errors.{Result, ok}
use throttlekit_py.Package.{
  exported, import_statements, lazy_modules, declared, Imports, contains, bind_names, then_bound,
  after_import, run_imports, import_package, attribute_of, getattr_from, module_getattr, attribute,
}

-- Each name of the first list is in the second.
abbrev all_in : List String → List String → Bool
all_in [] ms = true
all_in (n ∷ ns) ms = contains n ms && all_in ns ms

contains-all_in :
    (name : String) (ns ms : List String)
    → all_in ns ms ≡ true
    → contains name ns ≡ true
    → contains name ms ≡ true
contains-all_in name [] ms sub e = ground arith
contains-all_in name (n ∷ ns) ms sub e = elim (Bool-cases (same_text n name)) [
  | inl same ↦ rw (← (eq_iff n name).0 same) (ground arith)
  | inr other ↦ contains-all_in name ns ms (ground arith) (ground arith)
]

contains-append :
    (name : String) (ns ms : List String)
    → contains name (ns ++ ms) ≡ (contains name ns || contains name ms)
contains-append name [] ms = refl
contains-append name (n ∷ ns) ms = ground (arith, contains-append name ns ms)

-- Each name is one of those that a module declares.
abbrev in_module : List String → Option (List String) → Bool
in_module names none = false
in_module names (some out) = all_in names out

-- The names that import statements bind.
abbrev statement_names : Dict (List String) → List String
statement_names [] = []
statement_names ((file, names) ∷ rest) = names ++ statement_names rest

exported_in : all_in exported (statement_names import_statements ++ keys lazy_modules) ≡ true
unfolding exported import_statements lazy_modules keys
exported_in = refl

-- Each statement, and each entry of the table, names what its module declares.
abbrev all_declared : Dict (List String) → Bool
all_declared [] = true
all_declared ((file, names) ∷ rest) = in_module names (lookup file declared) && all_declared rest

abbrev entries_declared : Dict String → Bool
entries_declared [] = true
entries_declared ((name, file) ∷ rest) =
    in_module (name ∷ []) (lookup file declared) && entries_declared rest

statements_declared : all_declared import_statements ≡ true
unfolding import_statements declared lookup
statements_declared = refl

lazy_declared : entries_declared lazy_modules ≡ true
unfolding lazy_modules declared lookup
lazy_declared = refl

lookup_declares :
    (name file : String) (d : Dict String)
    → entries_declared d ≡ true
    → lookup name d ≡ some file
    → in_module (name ∷ []) (lookup file declared) ≡ true
unfolding lookup
lookup_declares name file [] all e = absurd (ground arith)
lookup_declares name file ((n, f) ∷ d) all e = elim (Bool-cases (same_text n name)) [
  | inl same ↦ rw (← (eq_iff n name).0 same) (ground arith)
  | inr other ↦ lookup_declares name file d (ground arith) (ground arith)
]

lookup_of_contains :
    {V : Type 0} (name : String) (d : Dict V)
    → contains name (keys d) ≡ true
    → (v : V) × (lookup name d ≡ some v)
unfolding keys lookup
lookup_of_contains name [] e = absurd (ground arith)
lookup_of_contains name ((n, v) ∷ d) e = elim (Bool-cases (same_text n name)) [
  | inl same ↦ (v, rw same refl)
  | inr other ↦ let (v', found) = lookup_of_contains name d (ground arith) in (v', rw other found)
]

module _ {Obj : Type 0} where
  abbrev pub is_bound : Option Obj → Bool
  is_bound none = false
  is_bound (some value) = true

  abbrev pub has : Dict Obj → String → Bool
  has d name = is_bound (lookup name d)

  -- The names end bound, and what was bound stays so.
  abbrev Binds : List String → Dict Obj → Result (Dict Obj) → Type 0
  Binds names bound r =
      (bound' : Dict Obj) × (r ≡ ok bound')
      × ((name : String) → (contains name names || has bound name) ≡ true → has bound' name ≡ true)

  bind_names-Binds :
      (attributes : Dict Obj) (names : List String) (bound : Dict Obj)
      → ((name : String) → contains name names ≡ true → has attributes name ≡ true)
      → Binds names bound (bind_names attributes names bound)
  unfolding bind_names
  bind_names-Binds attributes [] bound there = (bound, refl, λ name e. e)
  bind_names-Binds attributes (n ∷ names) bound there = elim (Option-cases (lookup n attributes)) [
    | inl gone ↦ absurd (ground (arith, there n, eq_iff n n))
    | inr (value, found) ↦
        let (bound', done, keeps) =
          bind_names-Binds attributes names (insert n value bound)
            (λ m h. there m (ground arith)) in
        (
          bound',
          rw found done,
          λ m h. keeps m (ground (arith, lookup-insert n m value bound, eq_iff n m)),
        )
  ]

module _ {Obj W : Type 0} (imports : Imports Obj W) where
  -- The optional dependencies are installed: each module of the package can be imported, and what its file
  -- declares is among its attributes.
  abbrev pub IsInstalled : Type 0
  IsInstalled =
      (file : String) (names : List String) (w : W)
      → lookup file declared ≡ some names
      → (attributes : Dict Obj) × (w' : W) × (imports.import_module file w ≡ (ok attributes, w'))
        × ((name : String) → contains name names ≡ true → has attributes name ≡ true)

  run_imports-Binds :
      (statements : Dict (List String)) (bound : Dict Obj) (w : W)
      → IsInstalled
      → all_declared statements ≡ true
      → Binds (statement_names statements) bound (run_imports imports statements bound w).0
  unfolding run_imports after_import then_bound
  run_imports-Binds [] bound w installed all = (bound, refl, λ name e. e)
  run_imports-Binds ((file, names) ∷ rest) bound w installed all =
      elim (Option-cases (lookup file declared)) [
        | inl gone ↦ absurd (ground arith)
        | inr (out, found) ↦
            let (attributes, w', imported, there) = installed file out w found in
            let (bound', done, keeps) =
              bind_names-Binds attributes names bound
                (λ name h. there name (contains-all_in name names out (ground arith) h)) in
            let (bound'', ended, keeps') =
              run_imports-Binds rest bound' w' installed (ground arith) in
            (
              bound'',
              rw (imported, done) ended,
              λ name h.
                  keeps' name
                    (ground (arith, keeps name, contains-append name names (statement_names rest))),
            )
      ]

  found_lem :
      (module_name name : String) (out : Result (Dict Obj) × W) (attributes : Dict Obj)
      (value : Obj) (w' : W)
      → out ≡ (ok attributes, w')
      → lookup name attributes ≡ some value
      → (attribute_of imports module_name name out).0 ≡ ok value
  found_lem module_name name out attributes value w' imported found = rw (imported, found) refl

  getattr_resolves :
      (name : String) (w : W)
      → IsInstalled
      → contains name (keys lazy_modules) ≡ true
      → (value : Obj) × ((module_getattr imports name w).0 ≡ ok value)
  unfolding module_getattr getattr_from
  getattr_resolves name w installed later =
      let (file, entry) = lookup_of_contains name lazy_modules later in
      let declared_there = lookup_declares name file lazy_modules lazy_declared entry in
      elim (Option-cases (lookup file declared)) [
        | inl gone ↦ absurd (ground arith)
        | inr (out, found) ↦
            let (attributes, w', imported, there) = installed file out w found in
            elim (Option-cases (lookup name attributes)) [
              | inl missing ↦ absurd (ground (arith, there name))
              | inr (value, has_it) ↦
                  (value, rw entry (found_lem _ name _ attributes value w' imported has_it))
            ]
      ]

  -- With the optional dependencies, the package can be imported, and each exported name resolves to a value
  -- then: the import statements and the table of lazy modules take each name from a module that declares it.
  pub exports_resolve :
      (w : W)
      → IsInstalled
      → (bound : Dict Obj) × ((import_package imports w).0 ≡ ok bound)
        × ((name : String) (v : W)
            → contains name exported ≡ true
            → (value : Obj) × ((attribute imports bound name v).0 ≡ ok value))
  unfolding import_package attribute
  exports_resolve w installed =
      let (bound, done, keeps) =
        run_imports-Binds import_statements [] w installed statements_declared in
      (
        bound,
        done,
        λ name v out. elim (Option-cases (lookup name bound)) [
          | inl unbound ↦
              let all =
                contains-all_in name exported
                  (statement_names import_statements ++ keys lazy_modules) exported_in out in
              let (value, got) = getattr_resolves name v installed (
                ground (
                  arith,
                  all,
                  contains-append name (statement_names import_statements) (keys lazy_modules),
                  keeps name,
                )) in
              (value, rw unbound got)
          | inr (value, found) ↦ (value, rw found refl)
        ],
      )
