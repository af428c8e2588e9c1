-- ===== src/Monitor/Tests.antt =====
-- `get_snapshot` against a door that wants its secret.
use throttlekit_py.Base.{String, ℤ, pos, Option, none, some, [], ◌∷◌, ◌≡◌, refl}
use throttlekit_py.Errors.{ok, err, throttle_kit_error}
use throttlekit_py.Grpc.{StatusCode, Reply, reply, failed, map_rpc_error, by_code}
use throttlekit_py.Monitor.{Snapshot, MonitorBackend, monitor_metadata, snapshot_of, get_snapshot}

abbrev snapshot : Snapshot
snapshot = record {
  meta = record {
    generated_at = pos 5;
    window_ms = pos 1000;
    mode = "process";
    lens_version = "1";
    node_id = "";
  };
  policies =
      record {
        name = "api";
        kind = "limiter";
        strategy = "gcra";
        allowed = pos 3;
        denied = pos 1;
        limit = pos 10;
      }
      ∷ [];
  raw_json = "{}";
}

abbrev door : Option (String × String) → ℤ → Reply Snapshot × ℤ
door none w = (failed (record { code = StatusCode.unauthenticated; details = some "no secret" }), w)
door (some (header, secret)) w = (reply snapshot, w)

abbrev backend : Option String → MonitorBackend ℤ
backend secret = record { stub = door; metadata = monitor_metadata secret }

let_in : (get_snapshot (backend (some "hush")) (pos 0)).0 ≡ ok (snapshot_of snapshot)
unfolding get_snapshot monitor_metadata
let_in = refl

kept_out :
    (get_snapshot (backend (some "")) (pos 0)).0
    ≡ err (throttle_kit_error "UNAUTHENTICATED: no secret")
unfolding get_snapshot monitor_metadata map_rpc_error by_code
kept_out = refl
