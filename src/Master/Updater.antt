-- ===== src/Master/Updater.antt =====
-- The loops of `Updater` in cmd/master/updater.go.
pub mod Attempts
use xelis_pool.Common.{
  ℕ, zero, suc, ◌==◌, Bool, true, false, ◌||◌, Option, none, some, if◌then◌else◌,
}
use xelis_pool.Master.Float.{Float}
use xelis_pool.Master.Stats.{Statistics}

module _ (float : Float) (round : float.F → float.F) (is_zero : float.F → Bool) where
  open float use {F, of_ℕ, add, mul, div, lt}

  -- The net hashrate after a new height, at a difficulty of the chain and a block time.
  unfoldable pub next_net_hashrate : F → F → F → F
  next_net_hashrate block_time diff net =
      let next = div diff block_time in
      if is_zero diff
      then of_ℕ 0
      else if lt net (div next (of_ℕ 2)) || lt (mul next (of_ℕ 2)) net
      then next
      else div (add (mul net (of_ℕ 4)) next) (of_ℕ 5)

  -- `MasterInfo`, and whether its mutex is held.
  pub record MasterInfo : Type 0 where
    pub height : ℕ
    pub block_reward : ℕ
    pub locked : Bool

  -- `GetInfo`: the height, and the difficulty where it is a number.
  pub record ChainInfo : Type 0 where
    pub topoheight : ℕ
    pub difficulty : Option F

  -- One turn of `Updater`: whether new rewards are looked for. A difficulty that is not a number
  -- leaves the mutex held, and then every turn waits.
  unfoldable pub on_info :
      (F → Bool)
      → F
      → Option ChainInfo
      → MasterInfo
      → Statistics float round is_zero
      → (MasterInfo × Statistics float round is_zero) × Bool
  unfolding next_net_hashrate
  on_info is_inf block_time none m s = ((m, s), false)
  on_info is_inf block_time (some info) m s =
      let m' : MasterInfo = record m { height = info.topoheight } in
      if m.locked || info.topoheight == m.height then ((m, s), false) else elim info.difficulty [
        | none ↦ ((record m' { locked = true }, s), false)
        | some diff ↦
            let net = next_net_hashrate block_time diff s.net_hashrate in
            (
              (
                m',
                record s {
                  difficulty = mul net block_time;
                  net_hashrate = if is_inf net then of_ℕ 0 else net;
                },
              ),
              true,
            )
      ]

  -- `UpdateReward`: the outer `none` is an error, the inner one a missing reward.
  unfoldable pub update_reward : Option (Option ℕ) → MasterInfo → MasterInfo
  update_reward none m = m
  update_reward (some none) m = m
  update_reward (some (some r)) m = record m { block_reward = r }

abbrev pub max_withdraw_attempts : ℕ
max_withdraw_attempts = 10

-- The loop over `Withdraw`, at most `n` times; `withdraw` says whether someone is still unpaid.
unfoldable pub withdraw_loop {ℓ} : {S : Type ℓ} → (S → S × Bool) → ℕ → S → S
withdraw_loop withdraw zero s = s
withdraw_loop withdraw (suc n) s =
    let (s', still_unpaid) = withdraw s in
    let rest = withdraw_loop withdraw n s' in if still_unpaid then rest else s'
