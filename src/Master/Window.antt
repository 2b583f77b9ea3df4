-- ===== src/Master/Window.antt =====
-- cmd/master/pplns_diff.go: the duration of the share window, in seconds.
use xelis_pool.Common.{ℕ, ◌*◌, ◌%◌, ◌^◌, Bool, if◌then◌else◌}
use xelis_pool.Master.Float.{Float}

module _ (float : Float) where
  open float use {F, of_ℕ, to_ℕ, mul, div, lt}

  -- `x == 0` is neither `x < 0` nor `0 < x` and not a NaN, which is not equal to itself: the test
  -- is an argument.
  module _ (is_zero : F → Bool) where
    unfoldable pub get_pplns_window : F → F → ℕ → ℕ
    get_pplns_window net_hashrate pool_hashrate block_time =
        let interval : F = mul (div net_hashrate pool_hashrate) (of_ℕ block_time) in
        if is_zero interval
        then 2 * 3600 * 24
        else if lt (of_ℕ 3600) interval
        then 3600
        else if lt interval (mul (of_ℕ block_time) (of_ℕ 2))
        then (block_time * 2) % 2 ^ 64
        else to_ℕ interval
