-- ===== src/Service/Blocks.antt =====
-- `with` blocks over src/throttlekit/service_backend.py: of an admission, `with rl.admit(…) as adm: body`, and
-- of the backend, whose `__exit__` is `close`. The thread that runs the block is the only one here.
pub mod Leaving
mod Tests
use throttlekit_py.Base.{ℕ, String, ℤ, Bool, true, false, Option, none, some}
use throttlekit_py.Errors.{Exn, Result, ok, err}
use throttlekit_py.Service.{RateLimiterStub}
use throttlekit_py.Service.Admission.{Admission, Pump, Client, admit, exit}

-- Statements on the admissions and the world, which may raise.
abbrev pub Action : Type 0 → Type 0 → Type 0
Action W A = Client → W → Result A × Client × W

abbrev pub raised : {A : Type 0} → Result A → Bool
raised (ok a) = false
raised (err e) = true

-- The block's own exception goes on, unless `__exit__` raises another.
abbrev pub after_exit : {A : Type 0} → Result A → Result (Unit {0}) → Result A
after_exit r (ok u) = r
after_exit r (err e) = err e

module _ {W : Type 0} (stub : RateLimiterStub W) where
  -- `__exit__` of the admission that the number names.
  unfoldable pub exit_at :
      {A : Type 0} → ℕ → Option Admission → Result A → Client → W → Result A × Client × W
  exit_at i none r c w = (r, c, w)
  exit_at i (some a) r c w =
      let (r', c', w') = exit stub (raised r) i a c w in (after_exit r r', c', w')

  -- The end of the block.
  unfoldable pub leave : {A : Type 0} → ℕ → Result A × Client × W → Result A × Client × W
  unfolding exit_at
  leave i (r, c, w) = exit_at i (c.at i) r c w

  unfoldable pub entered :
      {A : Type 0} → (ℕ → Action W A) → Result ℕ × Client × W → Result A × Client × W
  unfolding leave
  entered body (err e, c, w) = (err e, c, w)
  entered body (ok i, c, w) = leave i (body i c w)

  -- `with rl.admit(policy, key, …) as adm: body`; the body knows the admission by its number.
  unfoldable pub with_admit :
      {A : Type 0} → String → String → ℤ → ℤ → ℤ → Bool → (ℕ → Action W A) → Action W A
  unfolding entered
  with_admit policy key cost hold value heartbeat body c w =
      entered body (admit stub policy key cost hold value heartbeat c w)

-- `self._pump.close()`, if there is a pump.
unfoldable pub stop_pump_of : Option Pump → Option Pump
stop_pump_of none = none
stop_pump_of (some p) = some (record p { stopped = true })

-- `close`, and so `__exit__` of the backend: it stops the pump, and then closes the channel.
unfoldable pub close_backend : {W : Type 0} → (W → W) → Client → W → Client × W
unfolding stop_pump_of
close_backend close_channel c w = (record c { pump = stop_pump_of c.pump }, close_channel w)

abbrev pub after_close : {W A : Type 0} → Result A → Client × W → Result A × Client × W
after_close r (c, w) = (r, c, w)

-- `with ServiceBackend(…) as rl: body`
unfoldable pub with_backend : {W A : Type 0} → (W → W) → Action W A → W → Result A × Client × W
unfolding close_backend
with_backend close_channel body w =
    let (r, c, w') = body (record { next = 0; at = λ i. none; pump = none }) w in
    after_close r (close_backend close_channel c w')
