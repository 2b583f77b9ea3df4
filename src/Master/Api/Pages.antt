-- ===== src/Master/Api/Pages.antt =====
-- cmd/master/api.go: the pages of the web server, as the values that go into their JSON.
pub mod Owed
use xelis_pool.Common.{
  ℕ, ◌+◌, ◌%◌, ◌^◌, Bool, Option, none, some, List, [], ◌∷◌, length, if◌then◌else◌,
}
use xelis_pool.Common.Int.{ℤ, pos, negsuc}
use xelis_pool.Common.Bytes.{Bytes, ◌=?◌}
use xelis_pool.Common.Assoc.{Assoc, lookup_or}
use xelis_pool.Database.Records.{AddrInfo}
use xelis_pool.Master.Float.{Float}
use xelis_pool.Master.Store.{Store}
use xelis_pool.Master.Shares.{KnownAddress, unknown_address, get_hashrate}
use xelis_pool.Master.Stats.{LastBlock, Hr, FoundInfo, Statistics}
use xelis_pool.Master.Updater.{MasterInfo}
use xelis_pool.Master.Window.{get_pplns_window}
use xelis_pool.Master.Api.{
  sums, round6, PubWithdraw, public_withdrawals, UserWithdrawal, user_withdrawals,
}

module _ (float : Float) (round : float.F → float.F) (is_zero : float.F → Bool) where
  open float use {F, of_ℕ, sub, mul, div, lt}

  -- `math.IsInf` and `math.IsNaN`, one coin in atomic units, and the settings.
  pub record Display : Type 0 where
    pub is_inf : F → Bool
    pub is_nan : F → Bool
    pub coin : F
    pub block_time : ℕ
    pub fee_percent : F
    pub payment_threshold : F

  module _ (d : Display) where
    open d use {is_inf, is_nan, coin}

    unfoldable pub not_nan : F → F
    not_nan x = if is_nan x then of_ℕ 0 else x

    unfoldable pub round3 : F → F
    round3 x = div (round (mul x (of_ℕ 1000))) (of_ℕ 1000)

    abbrev finite_or_one : F → F
    finite_or_one x = if is_inf x then of_ℕ 1 else x

    -- `/ministats`
    pub record MiniStats : Type 0 where
      pub pool_hr : F
      pub connected_addresses : ℕ
      pub connected_workers : ℕ
      pub last_block_time : ℕ

    unfoldable pub mini_stats : Statistics float round is_zero → MiniStats
    mini_stats s = record {
      pool_hr = s.pool_hashrate;
      connected_addresses = length s.known;
      connected_workers = s.workers;
      last_block_time = s.last_block.timestamp;
    }

    -- `/stats`
    pub record PoolPage : Type 0 where
      pub mini : MiniStats
      pub net_hr : F
      pub hashrate_chart : List (Hr float round is_zero)
      pub workers_chart : List ℕ
      pub addresses_chart : List ℕ
      pub num_blocks_found : ℤ
      pub recent_blocks_found : List (FoundInfo float round is_zero)
      pub height : ℕ
      pub last_block : LastBlock
      pub reward : F
      pub pplns_window_seconds : ℕ
      pub withdrawals : List (PubWithdraw float)
      pub hashes : F
      pub difficulty : F
      pub effort : F
      pub pool_fee_percent : F
      pub payment_threshold : F

    -- An infinite number of hashes is set to 1 in the statistics too.
    unfoldable pub stats_page :
        MasterInfo float round is_zero
        → Statistics float round is_zero
        → PoolPage × Statistics float round is_zero
    unfolding round3 mini_stats get_pplns_window public_withdrawals
    stats_page info s =
        let difficulty = finite_or_one s.difficulty in
        let s' : Statistics float round is_zero = record s { hashes = finite_or_one s.hashes } in
        (
          record {
            mini = mini_stats s;
            net_hr = finite_or_one s.net_hashrate;
            hashrate_chart = s.pool_chart;
            workers_chart = s.workers_chart;
            addresses_chart = s.addresses_chart;
            num_blocks_found = s.num_found;
            recent_blocks_found = s.blocks_found;
            height = info.height;
            last_block = s.last_block;
            reward = round3 (div (of_ℕ info.block_reward) coin);
            pplns_window_seconds =
                get_pplns_window float is_zero s.net_hashrate s.pool_hashrate d.block_time;
            withdrawals = public_withdrawals float round coin s.withdrawals;
            hashes = s'.hashes;
            difficulty = difficulty;
            effort = mul (div s'.hashes difficulty) (of_ℕ 32);
            pool_fee_percent = d.fee_percent;
            payment_threshold = d.payment_threshold;
          },
          s',
        )

    -- `GetEstPendingBalance`: both sums of hashes stay 0.
    unfoldable pub get_est_pending_balance : MasterInfo float round is_zero → F
    get_est_pending_balance info = mul (div (of_ℕ 0) (of_ℕ 0)) (div (of_ℕ info.block_reward) coin)

    -- `/stats/:addr`
    pub record AddressPage : Type 0 where
      pub hashrate : F
      pub balance : F
      pub balance_pending : F
      pub paid : F
      pub est_pending : F
      pub hr_chart : List (Hr float round is_zero)
      pub withdrawals : List (UserWithdrawal float)

    -- `offline_after` and `now` are those of the hashrate.
    unfoldable pub address_page :
        F
        → F
        → MasterInfo float round is_zero
        → Statistics float round is_zero
        → Bytes
        → AddrInfo
        → AddressPage
    unfolding not_nan round6 get_hashrate get_est_pending_balance user_withdrawals lookup_or
    address_page offline_after now info s addr i =
        let known = lookup_or (unknown_address float round is_zero) addr s.known in
        record {
          hashrate = not_nan (round (get_hashrate float round is_zero offline_after now known).1);
          balance = not_nan (round6 float round (div (of_ℕ i.balance) coin));
          balance_pending = not_nan (round6 float round (div (of_ℕ i.balance_pending) coin));
          paid = not_nan (round6 float round (div (of_ℕ i.paid) coin));
          est_pending = not_nan (round6 float round (get_est_pending_balance info));
          hr_chart = lookup_or [] addr s.charts;
          withdrawals = user_withdrawals float coin addr s.withdrawals;
        }

    -- `/admin/:pass/`, behind the password.
    pub record AdminPage : Type 0 where
      pub bal_confirmed : F
      pub bal_pending : F
      pub bal_total : F
      pub bal_owned : F
      pub debt : F
      pub debt_confirmed : F
      pub miners : List (Bytes × F)

    unfoldable pub miner_logs : F → F → Assoc (KnownAddress float round is_zero) → List (Bytes × F)
    unfolding get_hashrate
    miner_logs offline_after now [] = []
    miner_logs offline_after now ((a, k) ∷ ks) =
        (a, (get_hashrate float round is_zero offline_after now k).1)
        ∷ miner_logs offline_after now ks

    -- The comparison of the miners: the greater hashrate first.
    unfoldable pub by_hashrate : Bytes × F → Bytes × F → ℤ
    by_hashrate (a, x) (b, y) =
        let d = sub y x in
        if lt (of_ℕ 0) d then pos 1 else if lt d (of_ℕ 0) then negsuc 0 else pos 0

    -- `balance` is what the wallet answers, 0 for an error. `sort_func` is that of the library. The
    -- result is `none` where the password is wrong, and the outer `none` is a panic.
    module _ (store : Store)
        (sort_func : (Bytes × F → Bytes × F → ℤ) → List (Bytes × F) → List (Bytes × F)) where
      open store use {B, walk}

      unfoldable pub page_of : F → F → ℕ → Statistics float round is_zero → ℕ → ℕ → AdminPage
      unfolding miner_logs by_hashrate
      page_of offline_after now balance s confirmed pending =
          let total = of_ℕ ((confirmed + pending) % 2 ^ 64) in
          record {
            bal_confirmed = div (of_ℕ confirmed) coin;
            bal_pending = div (of_ℕ pending) coin;
            bal_total = div total coin;
            bal_owned = div (of_ℕ balance) coin;
            debt = div (sub total (of_ℕ balance)) coin;
            debt_confirmed = div (sub (of_ℕ confirmed) (of_ℕ balance)) coin;
            miners = sort_func by_hashrate (miner_logs offline_after now s.known);
          }

      unfoldable pub admin_page :
          Bytes → Bytes → F → F → ℕ → Statistics float round is_zero → B → Option (Option AdminPage)
      unfolding sums page_of
      admin_page master_pass pass offline_after now balance s b =
          let page : Option (Option AdminPage) = elim (sums (walk b) 0 0) [
            | none ↦ none
            | some ((confirmed, pending), complete) ↦
                some (some (page_of offline_after now balance s confirmed pending))
          ] in
          if pass =? master_pass then page else some none
