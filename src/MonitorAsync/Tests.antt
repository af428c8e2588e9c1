-- ===== src/MonitorAsync/Tests.antt =====
-- `get_snapshot` against a door that wants its secret.
use throttlekit_py.Base.{String, ℤ, pos, Option, none, some, [], ◌≡◌, refl}
use throttlekit_py.Errors.{ok, err, throttle_kit_error}
use throttlekit_py.Grpc.{StatusCode, Reply, reply, failed, map_rpc_error, by_code}
use throttlekit_py.Monitor.{Snapshot, snapshot_of}
use throttlekit_py.MonitorAsync.{AsyncMonitorBackend, async_monitor_metadata, get_snapshot}

abbrev empty_snapshot : Snapshot
empty_snapshot = record {
  meta = record {
    generated_at = pos 5;
    window_ms = pos 1000;
    mode = "process";
    lens_version = "1";
    node_id = "";
  };
  policies = [];
  raw_json = "{}";
}

abbrev guarded : Option (String × String) → ℤ → Reply Snapshot × ℤ
guarded none w =
    (failed (record { code = StatusCode.unauthenticated; details = some "no secret" }), w)
guarded (some (header, secret)) w = (reply empty_snapshot, w)

abbrev monitor_with : Option String → AsyncMonitorBackend ℤ
monitor_with secret = record { stub = guarded; metadata = async_monitor_metadata secret }

with_secret :
    (get_snapshot (monitor_with (some "hush")) (pos 0)).0 ≡ ok (snapshot_of empty_snapshot)
unfolding get_snapshot async_monitor_metadata
with_secret = refl

without_secret :
    (get_snapshot (monitor_with (some "")) (pos 0)).0
    ≡ err (throttle_kit_error "UNAUTHENTICATED: no secret")
unfolding get_snapshot async_monitor_metadata map_rpc_error by_code
without_secret = refl
