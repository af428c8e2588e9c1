-- ===== src/Package.antt =====
-- src/throttlekit/__init__.py: the names that the package exports, and the lazy import of the backends.
-- The import system is outside: it gives the attributes of a module, or raises.
pub mod Exports
mod Tests
use throttlekit_py.Base.{
  String, text_append, same_text, Dict, lookup, insert, Bool, true, false, ◌||◌, Option, none, some,
  List, [], ◌∷◌, if◌then◌else◌,
}
use throttlekit_py.Errors.{Exn, Result, ok, err, foreign, ◌>>=◌}

-- `__all__`
unfoldable pub exported : List String
exported =
    "ServiceBackend" ∷ "Admission" ∷ "RedisBackend" ∷ "RedisClientLike" ∷ "AsyncServiceBackend"
    ∷ "AsyncAdmission" ∷ "AsyncRedisBackend" ∷ "AsyncRedisClientLike" ∷ "LeaseSpender"
    ∷ "LeaseGrant" ∷ "FleetBackend" ∷ "Lease" ∷ "LeasedLimiter" ∷ "AsyncFleetBackend"
    ∷ "AsyncLeasedLimiter" ∷ "MonitorBackend" ∷ "MonitorPolicy" ∷ "MonitorSnapshot"
    ∷ "AsyncMonitorBackend" ∷ "Strategy" ∷ "Gcra" ∷ "TokenBucket" ∷ "FixedWindow" ∷ "SlidingWindow"
    ∷ "SlidingWindowLog" ∷ "from_spec" ∷ "Decision" ∷ "Forecast" ∷ "ThrottleKitError"
    ∷ "PolicyNotFoundError" ∷ "OperationNotSupportedError" ∷ "ServiceUnavailableError"
    ∷ "decision_headers" ∷ "rate_limit" ∷ "RateLimited" ∷ "bind_policy" ∷ "Checker"
    ∷ "OnUnavailable" ∷ "__version__" ∷ []

-- The import statements: a submodule, and the names that are taken from it.
unfoldable pub import_statements : Dict (List String)
import_statements =
    ("_version", "__version__" ∷ [])
    ∷ ("decision", "Decision" ∷ "Forecast" ∷ [])
    ∷ (
      "errors",
      "OperationNotSupportedError" ∷ "PolicyNotFoundError" ∷ "ServiceUnavailableError"
          ∷ "ThrottleKitError" ∷ [],
    )
    ∷ ("headers", "decision_headers" ∷ [])
    ∷ ("lease_spender", "LeaseGrant" ∷ "LeaseSpender" ∷ [])
    ∷ ("ratelimit", "Checker" ∷ "OnUnavailable" ∷ "RateLimited" ∷ "bind_policy" ∷ "rate_limit" ∷ [])
    ∷ (
      "strategies",
      "FixedWindow" ∷ "Gcra" ∷ "SlidingWindow" ∷ "SlidingWindowLog" ∷ "Strategy" ∷ "TokenBucket"
          ∷ "from_spec" ∷ [],
    )
    ∷ []

-- `_LAZY`
unfoldable pub lazy_modules : Dict String
lazy_modules =
    ("ServiceBackend", "service_backend")
    ∷ ("Admission", "service_backend")
    ∷ ("RedisBackend", "redis_backend")
    ∷ ("RedisClientLike", "redis_backend")
    ∷ ("AsyncServiceBackend", "service_backend_async")
    ∷ ("AsyncAdmission", "service_backend_async")
    ∷ ("AsyncRedisBackend", "redis_backend_async")
    ∷ ("AsyncRedisClientLike", "redis_backend_async")
    ∷ ("FleetBackend", "fleet_backend")
    ∷ ("Lease", "fleet_backend")
    ∷ ("LeasedLimiter", "fleet_backend")
    ∷ ("AsyncFleetBackend", "fleet_backend_async")
    ∷ ("AsyncLeasedLimiter", "fleet_backend_async")
    ∷ ("MonitorBackend", "monitor_backend")
    ∷ ("MonitorPolicy", "monitor_backend")
    ∷ ("MonitorSnapshot", "monitor_backend")
    ∷ ("AsyncMonitorBackend", "monitor_backend_async")
    ∷ []

-- What `class`, `def` and assignments declare at the top level of each submodule's own file.
unfoldable pub declared : Dict (List String)
declared =
    ("_version", "__version__" ∷ [])
    ∷ ("decision", "Decision" ∷ "Forecast" ∷ [])
    ∷ (
      "errors",
      "ThrottleKitError" ∷ "PolicyNotFoundError" ∷ "OperationNotSupportedError"
          ∷ "ServiceUnavailableError" ∷ [],
    )
    ∷ ("headers", "Style" ∷ "decision_headers" ∷ [])
    ∷ ("lease_spender", "LeaseGrant" ∷ "_require_cost" ∷ "LeaseSpender" ∷ [])
    ∷ (
      "ratelimit",
      "F" ∷ "OnUnavailable" ∷ "Checker" ∷ "_PolicyBackend" ∷ "RateLimited" ∷ "_is_async_callable"
          ∷ "bind_policy" ∷ "_resolve_sync" ∷ "_resolve_async" ∷ "rate_limit" ∷ [],
    )
    ∷ (
      "strategies",
      "Strategy" ∷ "Gcra" ∷ "TokenBucket" ∷ "FixedWindow" ∷ "SlidingWindow" ∷ "SlidingWindowLog"
          ∷ "from_spec" ∷ [],
    )
    ∷ (
      "service_backend",
      "_decision" ∷ "_forecast" ∷ "_mapped" ∷ "Admission" ∷ "_HeartbeatPump" ∷ "ServiceBackend"
          ∷ [],
    )
    ∷ (
      "service_backend_async",
      "AsyncAdmission" ∷ "_AsyncHeartbeatPump" ∷ "AsyncServiceBackend" ∷ [],
    )
    ∷ ("redis_backend", "RedisClientLike" ∷ "_is_noscript" ∷ "_decode" ∷ "RedisBackend" ∷ [])
    ∷ ("redis_backend_async", "AsyncRedisClientLike" ∷ "AsyncRedisBackend" ∷ [])
    ∷ (
      "fleet_backend",
      "_AXIS" ∷ "_MAX_ROUNDS" ∷ "Lease" ∷ "_lease" ∷ "_now_ms" ∷ "FleetBackend" ∷ "LeasedLimiter"
          ∷ [],
    )
    ∷ ("fleet_backend_async", "AsyncFleetBackend" ∷ "AsyncLeasedLimiter" ∷ [])
    ∷ ("monitor_backend", "MonitorPolicy" ∷ "MonitorSnapshot" ∷ "_snapshot" ∷ "MonitorBackend" ∷ [])
    ∷ ("monitor_backend_async", "AsyncMonitorBackend" ∷ [])
    ∷ []

-- The import system: what `import_module` of a submodule does to the world, with the attributes of the
-- module.
pub record Imports (Obj W : Type 0) : Type 0 where
  pub import_module : String → W → Result (Dict Obj) × W

abbrev pub contains : String → List String → Bool
contains name [] = false
contains name (n ∷ ns) = same_text n name || contains name ns

-- A text between single quotes, `repr` of an identifier.
abbrev pub no_attribute : String → String → Exn
no_attribute module_name name = foreign "AttributeError" (
    text_append "module '"
      (text_append module_name (text_append "' has no attribute '" (text_append name "'"))))

abbrev pub value_or_raise : {Obj : Type 0} → String → String → Option Obj → Result Obj
value_or_raise module_name name none = err (no_attribute module_name name)
value_or_raise module_name name (some value) = ok value

-- `from .file import name` of a name that the module does not have.
abbrev pub cannot_import : String → Exn
cannot_import name = foreign "ImportError" (text_append "cannot import name " name)

module _ {Obj : Type 0} where
  abbrev pub name_or_raise : String → Option Obj → Result Obj
  name_or_raise name none = err (cannot_import name)
  name_or_raise name (some value) = ok value

  -- The names of an import statement, from the attributes of the module.
  unfoldable pub bind_names : Dict Obj → List String → Dict Obj → Result (Dict Obj)
  bind_names attributes [] bound = ok bound
  bind_names attributes (name ∷ names) bound = do
    value ← name_or_raise name (lookup name attributes)
    bind_names attributes names (insert name value bound)

  -- What follows the import of a statement's module.
  unfoldable pub then_bound :
      {W : Type 0}
      → (Dict Obj → W → Result (Dict Obj) × W)
      → Result (Dict Obj)
      → W
      → Result (Dict Obj) × W
  then_bound next (err e) w = (err e, w)
  then_bound next (ok bound) w = next bound w

  unfoldable pub after_import :
      {W : Type 0}
      → List String
      → Dict Obj
      → (Dict Obj → W → Result (Dict Obj) × W)
      → Result (Dict Obj) × W
      → Result (Dict Obj) × W
  unfolding bind_names then_bound
  after_import names bound next (err e, w) = (err e, w)
  after_import names bound next (ok attributes, w) =
      then_bound next (bind_names attributes names bound) w

module _ {Obj W : Type 0} (imports : Imports Obj W) where
  -- `getattr(module, name)`
  abbrev pub attribute_of : String → String → Result (Dict Obj) × W → Result Obj × W
  attribute_of module_name name (err e, w) = (err e, w)
  attribute_of module_name name (ok attributes, w) =
      (value_or_raise module_name name (lookup name attributes), w)

  -- `__getattr__`, once the table has been asked.
  unfoldable pub getattr_from : Option String → String → W → Result Obj × W
  getattr_from none name w = (err (no_attribute "throttlekit" name), w)
  getattr_from (some file) name w =
      attribute_of (text_append "throttlekit." file) name (imports.import_module file w)

  -- `__getattr__`
  unfoldable pub module_getattr : String → W → Result Obj × W
  unfolding getattr_from
  module_getattr name w = getattr_from (lookup name lazy_modules) name w

  -- The import of the package, from the names that are bound so far.
  unfoldable pub run_imports : Dict (List String) → Dict Obj → W → Result (Dict Obj) × W
  unfolding after_import
  run_imports [] bound w = (ok bound, w)
  run_imports ((file, names) ∷ rest) bound w =
      after_import names bound (run_imports rest) (imports.import_module file w)

  unfoldable pub import_package : W → Result (Dict Obj) × W
  unfolding run_imports
  import_package w = run_imports import_statements [] w

  abbrev pub bound_or : Option Obj → String → W → Result Obj × W
  bound_or (some value) name w = (ok value, w)
  bound_or none name w = module_getattr name w

  -- `throttlekit.name`: the module's own binding, or else `__getattr__`.
  unfoldable pub attribute : Dict Obj → String → W → Result Obj × W
  unfolding module_getattr
  attribute bound name w = bound_or (lookup name bound) name w
