-- ===== src/Tests/Statistics.antt =====
-- Runs of the theorems on the statistics and the web server of the master.
use xelis_pool.Common.{
  Option, ℕ, suc, ◌-◌, ◌≤◌, ◌<◌, ◌≡◌, ◌⊎◌, refl, Bool, true, false, some, List, [], ◌∷◌, length,
  replicate, All, ◌==◌, ltb,
}
use xelis_pool.Common.Int.{pos}
use xelis_pool.Common.Newest.{newest}
use xelis_pool.Common.Bytes.{Bytes, codes, ◌=?◌}
use xelis_pool.Common.Text.{split}
use xelis_pool.Common.Assoc.{Assoc, lookup}
use xelis_pool.Master.Store.{memory}
use xelis_pool.Master.Withdraw.{Config}
use xelis_pool.Master.Stats.{Statistics, num_chart_data, update_stats}
use xelis_pool.Master.Updater.{withdraw_loop}
use xelis_pool.Master.Stats.Charts.{IsShort, push_all, push_all-newest, update_stats_bounds}
use xelis_pool.Master.Updater.Attempts.{steps, withdraw_loop_lem}
use xelis_pool.Master.Api.{ApiConfig, shown, show_address}
use xelis_pool.Master.Api.Pages.{Display, admin_page, AdminPage}
use xelis_pool.Master.Api.Sums.{KeepsRecords, IsAllowed, show_address_keeps}
use xelis_pool.Tests.Samples.{whole_numbers}

abbrev many_values : List ℕ
many_values = 1 ∷ 2 ∷ 3 ∷ replicate 100 7

push_all-newest_example : push_all many_values [] ≡ newest num_chart_data many_values
push_all-newest_example = push_all-newest many_values

abbrev is_none : ℕ → Bool
is_none n = n == 0

abbrev some_statistics : Statistics whole_numbers (λ x. x) is_none
some_statistics = record {
  last_update = 1000;
  pool_hashrate = 0;
  pool_chart = [];
  charts = [];
  hashes = 5;
  last_block = record { height = 1; timestamp = 2; reward = 3; hash = codes "h" };
  blocks_found = replicate 103 (record { height = 1; hash = codes "h"; effort = 1; time = 2 });
  num_found = pos 103;
  net_hashrate = 1;
  difficulty = 2;
  known = (codes "a", record { last_share = 1800; avg_hashrate = 9 }) ∷ [];
  withdrawals = [];
  workers = 1;
  workers_chart = replicate 96 1;
  addresses_chart = replicate 96 1;
}

update_stats_bounds_example :
    let s' = update_stats whole_numbers (λ x. x) is_none 360 1900 true some_statistics in
    (length s'.blocks_found ≤ 100)
    × (length s'.withdrawals ≤ 50)
    × (length s'.pool_chart ≤ num_chart_data)
    × (length s'.workers_chart ≤ num_chart_data)
    × (length s'.addresses_chart ≤ num_chart_data)
    × (All (IsShort whole_numbers (λ x. x) is_none) []
        → All (IsShort whole_numbers (λ x. x) is_none) s'.charts)
update_stats_bounds_example =
    update_stats_bounds whole_numbers (λ x. x) is_none 360 1900 some_statistics

-- A payout that pays one of those that wait.
abbrev pay_one : ℕ → ℕ × Bool
pay_one n = (n - 1, ltb 1 n)

withdraw_loop_lem_example :
    (k : ℕ) × (k ≤ 9)
    × (withdraw_loop pay_one 10 3 ≡ steps pay_one (suc k) 3)
    × ((i : ℕ) → i < k → (pay_one (steps pay_one i 3)).1 ≡ true)
    × ((k ≡ 9) ⊎ ((pay_one (steps pay_one k 3)).1 ≡ false))
withdraw_loop_lem_example = withdraw_loop_lem pay_one 9 3

abbrev a_config : Config
a_config = record {
  pool_address = codes "p";
  fee_address = codes "f";
  banned = [];
  min_withdrawal = 100;
  withdrawal_fee = 10;
}

abbrev a_bucket : Assoc Bytes
a_bucket = (codes "a", 0 ∷ 120 ∷ 0 ∷ 3 ∷ []) ∷ (codes "b", 0 ∷ 50 ∷ 4 ∷ 0 ∷ []) ∷ []

abbrev a_display : Display whole_numbers (λ x. x) is_none
a_display = record {
  is_inf = λ x. false;
  is_nan = λ x. false;
  coin = 1;
  block_time = 15;
  fee_percent = 1;
  payment_threshold = 100;
}

abbrev entered : Bytes → Option (Option (AdminPage whole_numbers (λ x. x) is_none a_display))
entered pass =
    admin_page whole_numbers (λ x. x) is_none a_display memory (λ cmp l. l) (codes "m") pass 60 1000
      150 some_statistics a_bucket

abbrev an_api : ApiConfig
an_api = record { pool_address = codes "p"; fee_address = codes "f"; master_pass = codes "m" }

-- The fee address with the password.
fee_shown :
    show_address memory an_api (codes "f+m") a_bucket
    ≡ some (shown (codes "f") (record { balance = 0; balance_pending = 0; paid = 0 }), a_bucket)
unfolding show_address split lookup ◌=?◌
fee_shown = refl

show_address_keeps_example :
    KeepsRecords memory a_bucket a_bucket
    × IsAllowed memory an_api
        (codes "f+m")
        (shown (codes "f") (record { balance = 0; balance_pending = 0; paid = 0 }))
show_address_keeps_example =
    show_address_keeps memory an_api (codes "f+m") a_bucket a_bucket
      (shown (codes "f") (record { balance = 0; balance_pending = 0; paid = 0 })) fee_shown
