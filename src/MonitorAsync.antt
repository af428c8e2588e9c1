-- ===== src/MonitorAsync.antt =====
-- src/throttlekit/monitor_backend_async.py: `AsyncMonitorBackend.get_snapshot`. Its await is one step of
-- the state `W` of the world; `_snapshot` is that of Monitor.
mod Tests
use throttlekit_py.Base.{String, same_text, Option, none, some, if◌then◌else◌}
use throttlekit_py.Errors.{Result, ok, err}
use throttlekit_py.Grpc.{Reply, reply, failed, broke, map_rpc_error}
use throttlekit_py.Monitor.{Snapshot, MonitorSnapshot, snapshot_of}

pub record AsyncMonitorBackend (W : Type 0) : Type 0 where
  pub stub : Option (String × String) → W → Reply Snapshot × W
  pub metadata : Option (String × String)

-- `(("x-monitor-secret", secret),) if secret else None`
unfoldable pub async_monitor_metadata : Option String → Option (String × String)
async_monitor_metadata none = none
async_monitor_metadata (some secret) =
    if same_text secret "" then none else some ("x-monitor-secret", secret)

-- What `get_snapshot` does when its await ends.
unfoldable pub snapshot_resumed : {W : Type 0} → Reply Snapshot × W → Result MonitorSnapshot × W
snapshot_resumed (reply snapshot, w) = (ok (snapshot_of snapshot), w)
snapshot_resumed (failed e, w) = (err (map_rpc_error e), w)
snapshot_resumed (broke e, w) = (err e, w)

unfoldable pub get_snapshot : {W : Type 0} → AsyncMonitorBackend W → W → Result MonitorSnapshot × W
unfolding snapshot_resumed
get_snapshot b w = snapshot_resumed (b.stub b.metadata w)
