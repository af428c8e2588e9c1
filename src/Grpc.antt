-- ===== src/Grpc.antt =====
-- src/throttlekit/_grpc.py: how a failed RPC becomes an exception. gRPC itself is outside: an RPC
-- is known by its reply.
pub mod Mapping
use throttlekit_py.Base.{String, text_append, Option, none, some}
use throttlekit_py.Errors.{
  Exn, policy_not_found, operation_not_supported, service_unavailable, throttle_kit_error, Result,
  ok, err,
}

-- grpc.StatusCode
pub data StatusCode : Type 0 where
  cancelled unknown invalid_argument deadline_exceeded not_found already_exists : StatusCode
  permission_denied resource_exhausted failed_precondition aborted out_of_range : StatusCode
  unimplemented internal unavailable data_loss unauthenticated : StatusCode

-- grpc.RpcError, by its `code()` and `details()`.
pub record RpcError : Type 0 where
  pub code : StatusCode
  pub details : Option String

-- `code.name`
abbrev pub code_name : StatusCode → String
code_name StatusCode.cancelled = "CANCELLED"
code_name StatusCode.unknown = "UNKNOWN"
code_name StatusCode.invalid_argument = "INVALID_ARGUMENT"
code_name StatusCode.deadline_exceeded = "DEADLINE_EXCEEDED"
code_name StatusCode.not_found = "NOT_FOUND"
code_name StatusCode.already_exists = "ALREADY_EXISTS"
code_name StatusCode.permission_denied = "PERMISSION_DENIED"
code_name StatusCode.resource_exhausted = "RESOURCE_EXHAUSTED"
code_name StatusCode.failed_precondition = "FAILED_PRECONDITION"
code_name StatusCode.aborted = "ABORTED"
code_name StatusCode.out_of_range = "OUT_OF_RANGE"
code_name StatusCode.unimplemented = "UNIMPLEMENTED"
code_name StatusCode.internal = "INTERNAL"
code_name StatusCode.unavailable = "UNAVAILABLE"
code_name StatusCode.data_loss = "DATA_LOSS"
code_name StatusCode.unauthenticated = "UNAUTHENTICATED"

-- `details or ""`
abbrev pub or_empty : Option String → String
or_empty none = ""
or_empty (some text) = text

unfoldable pub by_code : StatusCode → String → Exn
by_code StatusCode.not_found details = policy_not_found details
by_code StatusCode.unimplemented details = operation_not_supported details
by_code StatusCode.unavailable details = service_unavailable details
by_code code details = throttle_kit_error (text_append (code_name code) (text_append ": " details))

unfoldable pub map_rpc_error : RpcError → Exn
unfolding by_code
map_rpc_error e = by_code e.code (or_empty e.details)

-- How an RPC ends: with a message, with an RpcError, or with another exception (a stub on a closed
-- channel raises ValueError).
pub data Reply {ℓ} (A : Type ℓ) : Type ℓ where
  reply : A → Reply A
  failed : RpcError → Reply A
  broke : Exn → Reply A

-- `try: resp = … / except grpc.RpcError as err: raise map_rpc_error(err) from err`
abbrev pub reply_or_raise {ℓ} : {A : Type ℓ} → Reply A → Result A
reply_or_raise (reply a) = ok a
reply_or_raise (failed e) = err (map_rpc_error e)
reply_or_raise (broke e) = err e
