-- ===== src/ServiceAsync.antt =====
-- src/throttlekit/service_backend_async.py: the calls of `AsyncServiceBackend` that consume or look up a
-- limit. An await of an RPC is one step of the state `W` of the world: what other tasks do until the
-- caller resumes is part of it. Messages, decoders and `_mapped` are those of Service.
pub mod Admission
pub mod Calls
pub mod Loop
mod Tests
use throttlekit_py.Base.{String, ℤ, List, map}
use throttlekit_py.Decision.{Decision, Forecast}
use throttlekit_py.Errors.{Result, ok, err}
use throttlekit_py.Grpc.{Reply, reply, failed, broke}
use throttlekit_py.Service.{RateLimiterStub, decision_of, forecast_of, mapped}

-- `try: resp = await … / except grpc.RpcError as err: raise _mapped(err) from err`, then the decoding.
unfoldable pub resumed : {A B W : Type 0} → (A → B) → Reply A × W → Result B × W
resumed decode (reply a, w) = (ok (decode a), w)
resumed decode (failed e, w) = (err (mapped e), w)
resumed decode (broke e, w) = (err e, w)

module _ {W : Type 0} (stub : RateLimiterStub W) where
  unfoldable pub check : String → String → ℤ → W → Result Decision × W
  check policy key cost w =
      resumed decision_of (stub.check (record { policy = policy; key = key; cost = cost }) w)

  unfoldable pub check_many : String → List String → ℤ → W → Result (List Decision) × W
  check_many policy keys cost w =
      resumed (map decision_of)
        (stub.check_many (record { policy = policy; keys = keys; cost = cost }) w)

  unfoldable pub peek : String → String → W → Result Decision × W
  peek policy key w = resumed decision_of (stub.peek (record { policy = policy; key = key }) w)

  unfoldable pub forecast : String → String → ℤ → W → Result Forecast × W
  forecast policy key cost w =
      resumed forecast_of (stub.forecast (record { policy = policy; key = key; cost = cost }) w)

  unfoldable pub debit : String → String → ℤ → W → Result Decision × W
  debit policy key tokens w =
      resumed decision_of (stub.debit (record { policy = policy; key = key; tokens = tokens }) w)
