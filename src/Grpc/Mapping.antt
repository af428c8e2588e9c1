-- ===== src/Grpc/Mapping.antt =====
-- Which exception a failed RPC raises (src/throttlekit/_grpc.py).
use throttlekit_py.Base.{String, ◌≡◌, arith}
use throttlekit_py.Errors.{policy_not_found, operation_not_supported, service_unavailable}
use throttlekit_py.Grpc.{StatusCode, RpcError, or_empty, by_code, map_rpc_error}

-- `ServiceUnavailableError`, on which callers fail open or closed, is raised for the status UNAVAILABLE
-- and for no other; so are `PolicyNotFoundError` for NOT_FOUND and `OperationNotSupportedError` for
-- UNIMPLEMENTED. Each carries the details of the status, or the empty text.
map_rpc_error_classes :
    (e : RpcError) (text : String)
    → (map_rpc_error e ≡ service_unavailable text
        → (e.code ≡ StatusCode.unavailable) × (or_empty e.details ≡ text))
      × (map_rpc_error e ≡ policy_not_found text
          → (e.code ≡ StatusCode.not_found) × (or_empty e.details ≡ text))
      × (map_rpc_error e ≡ operation_not_supported text
          → (e.code ≡ StatusCode.unimplemented) × (or_empty e.details ≡ text))
      × (e.code ≡ StatusCode.unavailable
          → map_rpc_error e ≡ service_unavailable (or_empty e.details))
      × (e.code ≡ StatusCode.not_found → map_rpc_error e ≡ policy_not_found (or_empty e.details))
      × (e.code ≡ StatusCode.unimplemented
          → map_rpc_error e ≡ operation_not_supported (or_empty e.details))
unfolding map_rpc_error by_code
map_rpc_error_classes e text = (
  λ h. ground arith,
  λ h. ground arith,
  λ h. ground arith,
  λ h. ground arith,
  λ h. ground arith,
  λ h. ground arith,
)
