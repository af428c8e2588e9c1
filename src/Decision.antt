-- ===== src/Decision.antt =====
-- src/throttlekit/decision.py: the result of one check, and a projection of a key's capacity.
use throttlekit_py.Base.{ℤ, Bool}

pub record Decision : Type 0 where
  pub allowed : Bool
  pub limit : ℤ
  pub remaining : ℤ
  pub reset_at : ℤ
  pub retry_after_ms : ℤ

pub record Forecast : Type 0 where
  pub spendable_now : ℤ
  pub next_replenish_at : ℤ
  pub full_at : ℤ
