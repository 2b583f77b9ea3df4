-- ===== src/Master/Float.antt =====
-- Go's float64, of which the model takes the operations that the master uses. `to_ℕ` is the
-- conversion to uint64.
use xelis_pool.Common.{ℕ, ◌^◌, ◌<◌, Bool}

pub record Float : Type 1 where
  pub F : Type 0
  pub of_ℕ : ℕ → F
  pub to_ℕ : F → ℕ
  pub add : F → F → F
  pub sub : F → F → F
  pub mul : F → F → F
  pub div : F → F → F
  pub lt : F → F → Bool
  pub to_ℕ_lt : (x : F) → to_ℕ x < 2 ^ 64
