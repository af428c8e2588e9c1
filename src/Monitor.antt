-- ===== src/Monitor.antt =====
-- src/throttlekit/monitor_backend.py: `MonitorBackend.get_snapshot`. The stub is a function of the state
-- `W` of the world, and a reply is what the client reads of it.
mod Tests
use throttlekit_py.Base.{String, ℤ, same_text, Option, none, some, List, map, if◌then◌else◌}
use throttlekit_py.Errors.{Result, map_result}
use throttlekit_py.Grpc.{Reply, reply_or_raise}

-- `MonitorMeta`, `PolicySummary` and `Snapshot` of contract/throttlekit.proto.
pub record MonitorMeta : Type 0 where
  pub generated_at : ℤ
  pub window_ms : ℤ
  pub mode : String
  pub lens_version : String
  pub node_id : String

pub record PolicySummary : Type 0 where
  pub name : String
  pub kind : String
  pub strategy : String
  pub allowed : ℤ
  pub denied : ℤ
  pub limit : ℤ

pub record Snapshot : Type 0 where
  pub meta : MonitorMeta
  pub policies : List PolicySummary
  pub raw_json : String

pub record MonitorPolicy : Type 0 where
  pub name : String
  pub kind : String
  pub strategy : String
  pub allowed : ℤ
  pub denied : ℤ
  pub limit : ℤ

pub record MonitorSnapshot : Type 0 where
  pub generated_at : ℤ
  pub window_ms : ℤ
  pub mode : String
  pub lens_version : String
  pub node_id : String
  pub policies : List MonitorPolicy
  pub raw_json : String

abbrev policy_of : PolicySummary → MonitorPolicy
policy_of p = record {
  name = p.name;
  kind = p.kind;
  strategy = p.strategy;
  allowed = p.allowed;
  denied = p.denied;
  limit = p.limit;
}

-- `_snapshot`
unfoldable pub snapshot_of : Snapshot → MonitorSnapshot
snapshot_of msg = record {
  generated_at = msg.meta.generated_at;
  window_ms = msg.meta.window_ms;
  mode = msg.meta.mode;
  lens_version = msg.meta.lens_version;
  node_id = msg.meta.node_id;
  policies = map policy_of msg.policies;
  raw_json = msg.raw_json;
}

-- The backend: its stub, given the metadata of a call, and that metadata.
pub record MonitorBackend (W : Type 0) : Type 0 where
  pub stub : Option (String × String) → W → Reply Snapshot × W
  pub metadata : Option (String × String)

-- `(("x-monitor-secret", secret),) if secret else None`
unfoldable monitor_metadata : Option String → Option (String × String)
monitor_metadata none = none
monitor_metadata (some secret) =
    if same_text secret "" then none else some ("x-monitor-secret", secret)

unfoldable get_snapshot : {W : Type 0} → MonitorBackend W → W → Result MonitorSnapshot × W
unfolding snapshot_of
get_snapshot b w =
    let (answer, w') = b.stub b.metadata w in (map_result snapshot_of (reply_or_raise answer), w')
