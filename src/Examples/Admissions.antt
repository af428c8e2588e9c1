-- ===== src/Examples/Admissions.antt =====
-- examples/concurrency_admit.py, less what it prints. The admissions have the number under which the client
-- keeps them.
pub mod Slots
use throttlekit_py.Base.{
  ℕ, zero, suc, String, pos, Bool, true, false, Option, none, some, List, [], ◌∷◌, ◌++◌,
  if◌then◌else◌,
}
use throttlekit_py.Errors.{Exn, Result, ok, err, runtime_error}
use throttlekit_py.Service.{RateLimiterStub}
use throttlekit_py.Service.Admission.{Admission, Client, admit, release}
use throttlekit_py.Service.Blocks.{Action, after_exit, with_admit, with_backend}

-- `adm.allowed`
abbrev pub allowed_of : Option Admission → Bool
allowed_of none = false
allowed_of (some a) = a.decision.allowed

-- What follows a call that may raise.
abbrev pub then_do : {W A B : Type 0} → Result A × Client × W → Action W B → Result B × Client × W
then_do (ok a, c, w) rest = rest c w
then_do (err e, c, w) rest = (err e, c, w)

-- `except RuntimeError`
abbrev pub except_runtime :
    {W : Type 0} → Result (Unit {0}) × Client × W → Result (Unit {0}) × Client × W
except_runtime (err runtime_error, c, w) = (ok tt, c, w)
except_runtime (r, c, w) = (r, c, w)

-- The body of a block whose work is left out.
abbrev pub work : {W : Type 0} → ℕ → Action W (Unit {0})
work i c w = (ok tt, c, w)

module _ {W : Type 0} (stub : RateLimiterStub W) where
  -- One more turn of the loop, or the end of it by an exception.
  unfoldable pub slot_taken :
      (List ℕ → Client → W → Result (Unit {0}) × List ℕ × Client × W)
      → List ℕ
      → Result ℕ × Client × W
      → Result (Unit {0}) × List ℕ × Client × W
  slot_taken turns held (err e, c, w) = (err e, held, c, w)
  slot_taken turns held (ok i, c, w) =
      turns (if allowed_of (c.at i) then held ++ (i ∷ []) else held) c w

  -- `for i in range(n): …`, with the slots held so far.
  unfoldable pub hold_slots : ℕ → List ℕ → Client → W → Result (Unit {0}) × List ℕ × Client × W
  unfolding slot_taken
  hold_slots zero held c w = (ok tt, held, c, w)
  hold_slots (suc n) held c w =
      slot_taken (hold_slots n) held
        (admit stub "unified-api" "user-1" (pos 1) (pos 0) (pos 1) false c w)

  -- `slot.release()`
  unfoldable pub release_at : ℕ → Option Admission → Action W (Unit {0})
  release_at i none c w = (ok tt, c, w)
  release_at i (some a) c w = release stub false i a c w

  -- `for slot in held: slot.release()`
  unfoldable pub release_slots : List ℕ → Action W (Unit {0})
  unfolding release_at
  release_slots [] c w = (ok tt, c, w)
  release_slots (i ∷ is) c w = then_do (release_at i (c.at i) c w) (release_slots is)

  -- The `finally` of the third section.
  unfoldable pub finally_release :
      Result (Unit {0}) × List ℕ × Client × W → Result (Unit {0}) × Client × W
  unfolding release_slots
  finally_release (r, held, c, w) =
      let (r', c', w') = release_slots held c w in (after_exit r r', c', w')

  -- The third section: admissions up to the cap, and their release.
  unfoldable pub press_cap : ℕ → Action W (Unit {0})
  unfolding hold_slots finally_release
  press_cap n c w = finally_release (hold_slots n [] c w)

  -- The body of a block whose work fails.
  unfoldable pub failing_work : ℕ → Action W (Unit {0})
  failing_work i c w = (if allowed_of (c.at i) then err runtime_error else ok tt, c, w)

  -- The body of the `with` block of the backend.
  unfoldable pub admissions : Action W (Unit {0})
  unfolding press_cap failing_work
  admissions c w =
      then_do (with_admit stub "checkout" "user-1" (pos 1) (pos 0) (pos 1) false work c w) (λ c1 w1.
        then_do
          (except_runtime
            (with_admit stub "checkout" "user-1" (pos 1) (pos 0) (pos 1) false failing_work c1 w1))
          (λ c2 w2.
            then_do (press_cap 4 c2 w2)
              (with_admit stub "checkout" "batch-job" (pos 1) (pos 0) (pos 1) true work)))

  unfoldable pub admissions_main : (W → W) → W → Result (Unit {0}) × Client × W
  unfolding admissions
  admissions_main close_channel w = with_backend close_channel admissions w
