-- ===== src/Examples/Budgets.antt =====
-- examples/llm_token_budget.py and examples/service_backend.py, less what they print. A token count is a
-- natural number.
pub mod Streams
use throttlekit_py.Base.{ℕ, zero, suc, pos, String, Bool, true, false, List, [], ◌∷◌, if◌then◌else◌}
use throttlekit_py.Decision.{Decision}
use throttlekit_py.Errors.{Result, ok, err}
use throttlekit_py.Service.{RateLimiterStub, check, debit}
use throttlekit_py.Service.Admission.{Client}
use throttlekit_py.Service.Blocks.{Action, with_admit, with_backend}
use throttlekit_py.Examples.Admissions.{then_do, work}

-- `[tokens_per_chunk] * chunks`
unfoldable pub fake_stream : (chunks tokens_per_chunk : ℕ) → List ℕ
fake_stream zero tokens_per_chunk = []
fake_stream (suc chunks) tokens_per_chunk = tokens_per_chunk ∷ fake_stream chunks tokens_per_chunk

-- How the loop over the stream ends, with the decisions that it has seen.
abbrev pub Metered : Type 0 → Type 0
Metered W = Result (Unit {0}) × List Decision × W

abbrev pub saw : {W : Type 0} → Decision → Metered W → Metered W
saw d (r, ds, w) = (r, d ∷ ds, w)

-- After the debit of a chunk: the rest of the stream, unless the chunk was refused.
unfoldable pub metered : {W : Type 0} → (W → Metered W) → Result Decision × W → Metered W
metered rest (err e, w) = (err e, [], w)
metered rest (ok d, w) = if d.allowed then saw d (rest w) else (ok tt, d ∷ [], w)

-- A statement that leaves the admissions alone.
abbrev plain : {W A : Type 0} → Result A × W → Client → Result A × Client × W
plain (r, w) c = (r, c, w)

module _ {W : Type 0} (stub : RateLimiterStub W) where
  -- `for i, cost in enumerate(…): …`
  unfoldable pub meter_stream : List ℕ → W → Metered W
  unfolding metered
  meter_stream [] w = (ok tt, [], w)
  meter_stream (cost ∷ costs) w =
      metered (meter_stream costs) (debit stub "completions" "tenant-1" (pos cost) w)

  -- The body of the `with` block of examples/llm_token_budget.py.
  unfoldable pub budget_block : Action W (Unit {0})
  unfolding meter_stream fake_stream
  budget_block c w = let (r, ds, w') = meter_stream (fake_stream 5 30000) w in (r, c, w')

  unfoldable pub token_budget_main : (W → W) → W → Result (Unit {0}) × Client × W
  unfolding budget_block
  token_budget_main close_channel w = with_backend close_channel budget_block w

  -- `for i in range(n): d = rl.check("api", "user-1")`
  unfoldable pub check_times : ℕ → Action W (Unit {0})
  check_times zero c w = (ok tt, c, w)
  check_times (suc n) c w = then_do (plain (check stub "api" "user-1" (pos 1) w) c) (check_times n)

  -- The body of the `with` block of examples/service_backend.py.
  unfoldable pub axes_block : Action W (Unit {0})
  unfolding check_times
  axes_block c w = then_do (check_times 7 c w) (λ c1 w1.
      then_do (plain (debit stub "completions" "tenant-1" (pos 3) w1) c1)
        (with_admit stub "checkout" "user-1" (pos 1) (pos 0) (pos 1) false work))

  unfoldable pub service_main : (W → W) → W → Result (Unit {0}) × Client × W
  unfolding axes_block
  service_main close_channel w = with_backend close_channel axes_block w
