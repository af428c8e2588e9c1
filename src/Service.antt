-- ===== src/Service.antt =====
-- src/throttlekit/service_backend.py: the calls of `ServiceBackend` that consume or look up a
-- limit. The stub is outside: each RPC is a function of the state `W` of the world.
pub mod Admission
pub mod Lifecycle
pub mod Calls
pub mod Thread
pub mod Blocks
mod Tests
use throttlekit_py.Base.{String, ℤ, text_append, Bool, List, map}
use throttlekit_py.Decision.{Decision, Forecast}
use throttlekit_py.Errors.{
  Exn, Result, ok, err, policy_not_found, operation_not_supported, service_unavailable,
  throttle_kit_error,
}
use throttlekit_py.Grpc.{StatusCode, RpcError, code_name, or_empty, Reply, reply, failed, broke}

-- The messages of contract/throttlekit.proto.
pub record DecisionMessage : Type 0 where
  pub allowed : Bool
  pub limit : ℤ
  pub remaining : ℤ
  pub reset_at : ℤ
  pub retry_after_ms : ℤ

pub record ForecastMessage : Type 0 where
  pub spendable_now : ℤ
  pub next_replenish_at : ℤ
  pub full_at : ℤ

pub record CheckRequest : Type 0 where
  pub policy : String
  pub key : String
  pub cost : ℤ

pub record CheckManyRequest : Type 0 where
  pub policy : String
  pub keys : List String
  pub cost : ℤ

pub record PeekRequest : Type 0 where
  pub policy : String
  pub key : String

pub record ForecastRequest : Type 0 where
  pub policy : String
  pub key : String
  pub cost : ℤ

pub record DebitRequest : Type 0 where
  pub policy : String
  pub key : String
  pub tokens : ℤ

pub record AdmitRequest : Type 0 where
  pub policy : String
  pub key : String
  pub cost : ℤ
  pub hold : ℤ
  pub value : ℤ

pub record AdmitResponse : Type 0 where
  pub decision : DecisionMessage
  pub lease_id : String
  pub lease_expires_at : ℤ
  pub binding_axis : String
  pub policy_denied : Bool

pub record ReleaseRequest : Type 0 where
  pub lease_id : String
  pub dropped : Bool

pub record HeartbeatResponse : Type 0 where
  pub live_ids : List String
  pub reclaimed_ids : List String
  pub next_deadline : ℤ

abbrev pub Rpc : Type 0 → Type 0 → Type 0 → Type 0
Rpc W Req Resp = Req → W → Reply Resp × W

-- `RateLimiterStub`, each reply by the part that the client reads.
pub record RateLimiterStub (W : Type 0) : Type 0 where
  pub check : Rpc W CheckRequest DecisionMessage
  pub check_many : Rpc W CheckManyRequest (List DecisionMessage)
  pub peek : Rpc W PeekRequest DecisionMessage
  pub forecast : Rpc W ForecastRequest ForecastMessage
  pub debit : Rpc W DebitRequest DecisionMessage
  pub admit : Rpc W AdmitRequest AdmitResponse
  pub release : Rpc W ReleaseRequest (Unit {0})
  pub heartbeat : Rpc W (List String) HeartbeatResponse

-- `_decision`
unfoldable pub decision_of : DecisionMessage → Decision
decision_of msg = record {
  allowed = msg.allowed;
  limit = msg.limit;
  remaining = msg.remaining;
  reset_at = msg.reset_at;
  retry_after_ms = msg.retry_after_ms;
}

-- `_forecast`
unfoldable pub forecast_of : ForecastMessage → Forecast
forecast_of msg = record {
  spendable_now = msg.spendable_now;
  next_replenish_at = msg.next_replenish_at;
  full_at = msg.full_at;
}

unfoldable pub by_status : StatusCode → String → Exn
by_status StatusCode.not_found details = policy_not_found details
by_status StatusCode.unimplemented details = operation_not_supported details
by_status StatusCode.unavailable details = service_unavailable details
by_status code details =
    throttle_kit_error (text_append (code_name code) (text_append ": " details))

-- `_mapped`
unfoldable pub mapped : RpcError → Exn
unfolding by_status
mapped e = by_status e.code (or_empty e.details)

-- `try: resp = … / except grpc.RpcError as err: raise _mapped(err) from err`, then the decoding.
unfoldable pub decoded : {A B W : Type 0} → (A → B) → Reply A × W → Result B × W
decoded decode (reply a, w) = (ok (decode a), w)
decoded decode (failed e, w) = (err (mapped e), w)
decoded decode (broke e, w) = (err e, w)

module _ {W : Type 0} (stub : RateLimiterStub W) where
  unfoldable pub check : String → String → ℤ → W → Result Decision × W
  check policy key cost w =
      decoded decision_of (stub.check (record { policy = policy; key = key; cost = cost }) w)

  unfoldable pub check_many : String → List String → ℤ → W → Result (List Decision) × W
  check_many policy keys cost w =
      decoded (map decision_of)
        (stub.check_many (record { policy = policy; keys = keys; cost = cost }) w)

  unfoldable pub peek : String → String → W → Result Decision × W
  peek policy key w = decoded decision_of (stub.peek (record { policy = policy; key = key }) w)

  unfoldable pub forecast : String → String → ℤ → W → Result Forecast × W
  forecast policy key cost w =
      decoded forecast_of (stub.forecast (record { policy = policy; key = key; cost = cost }) w)

  unfoldable pub debit : String → String → ℤ → W → Result Decision × W
  debit policy key tokens w =
      decoded decision_of (stub.debit (record { policy = policy; key = key; tokens = tokens }) w)
