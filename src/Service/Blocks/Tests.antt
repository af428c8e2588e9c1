-- ===== src/Service/Blocks/Tests.antt =====
-- A `with` block whose body raises, and one whose body is let be.
use throttlekit_py.Base.{ℕ, pos, Bool, true, false, none, some, List, [], ◌∷◌, ◌≡◌, refl}
use throttlekit_py.Errors.{err, runtime_error}
use throttlekit_py.Grpc.{StatusCode, RpcError, reply, failed}
use throttlekit_py.Service.{RateLimiterStub, AdmitResponse}
use throttlekit_py.Service.Admission.{
  Admission, Client, new_admission, admitted, admit, start_release, swallow, release, exit,
}
use throttlekit_py.Service.Blocks.{
  Action, exit_at, leave, entered, with_admit, close_backend, with_backend,
}
use throttlekit_py.Service.Blocks.Leaving.{with_admit_releases}

abbrev slot : AdmitResponse
slot = record {
  decision = record {
    allowed = true;
    limit = pos 2;
    remaining = pos 1;
    reset_at = pos 0;
    retry_after_ms = pos 0;
  };
  lease_id = "lease-1";
  lease_expires_at = pos 2000;
  binding_axis = "";
  policy_denied = false;
}

abbrev lost : RpcError
lost = record { code = StatusCode.unavailable; details = some "down" }

-- The world is what each `Release` said of dropping, and whether the channel is closed.
abbrev World : Type 0
World = List Bool × Bool

abbrev service : RateLimiterStub World
service = record {
  check = λ r w. (failed lost, w);
  check_many = λ r w. (failed lost, w);
  peek = λ r w. (failed lost, w);
  forecast = λ r w. (failed lost, w);
  debit = λ r w. (failed lost, w);
  admit = λ r w. (reply slot, w);
  release = λ r w. (reply tt, (r.dropped ∷ w.0, w.1));
  heartbeat = λ ids w. (failed lost, w);
}

abbrev fails : ℕ → Action World (Unit {0})
fails i c w = (err runtime_error, c, w)

abbrev empty : Client
empty = record { next = 0; at = λ i. none; pump = none }

abbrev holder : Admission
holder = new_admission slot false

with_admit_releases_example :
    with_admit service "checkout" "user-1" (pos 1) (pos 0) (pos 1) false fails empty ([], false)
    ≡ (err runtime_error, start_release 0 holder (admitted slot false empty), (true ∷ [], false))
unfolding admitted new_admission swallow
with_admit_releases_example =
    ((with_admit_releases service "checkout" "user-1" (pos 1) (pos 0) (pos 1) false fails empty
          ([], false)).1
        slot holder (err runtime_error) (admitted slot false empty) ([], false) refl refl refl).0
      refl refl

abbrev closed : World → World
closed (calls, open_still) = (calls, true)

-- The backend is closed after the block, whose exception goes on.
closed_after :
    (with_backend closed
      (with_admit service "checkout" "user-1" (pos 1) (pos 0) (pos 1) true fails)
      ([], false)).2
    ≡ (true ∷ [], true)
unfolding with_backend close_backend with_admit admit entered leave exit_at exit release swallow
    admitted new_admission start_release
closed_after = refl
