-- ===== src/Master/Api/Pages/Owed.antt =====
-- What the pages of the web server show of the money.
use xelis_pool.Common.{ℕ, ◌+◌, ◌%◌, ◌^◌, ◌≡◌, Bool, true, Option, List, if-true}
use xelis_pool.Common.Int.{ℤ}
use xelis_pool.Common.Bytes.{Bytes}
use xelis_pool.Master.Float.{Float}
use xelis_pool.Master.Store.{Store}
use xelis_pool.Master.Stats.{Statistics}
use xelis_pool.Master.Updater.{MasterInfo}
use xelis_pool.Master.Withdraw.{Config}
use xelis_pool.Master.Withdraw.Owed.{owed}
use xelis_pool.Master.Api.{round6}
use xelis_pool.Master.Api.Pages.{Display, AdminPage, not_nan, get_est_pending_balance, admin_page}

module _ (float : Float) (round : float.F → float.F) (is_zero : float.F → Bool)
    (d : Display float round is_zero) where
  open float use {F, of_ℕ, sub, mul, div}
  open d use {is_nan, coin}

  -- The estimate of the pending balance is 0 over 0 hashes, which the page of an address shows as 0
  -- whatever the reward, where what is not a number stays so.
  pub est_pending_zero :
      (info : MasterInfo float round is_zero)
      → is_nan (div (of_ℕ 0) (of_ℕ 0)) ≡ true
      → ((x y : F) → is_nan x ≡ true → is_nan (mul x y) ≡ true)
      → ((x y : F) → is_nan x ≡ true → is_nan (div x y) ≡ true)
      → ((x : F) → is_nan x ≡ true → is_nan (round x) ≡ true)
      → not_nan float round is_zero d
          (round6 float round (get_est_pending_balance float round is_zero d info))
        ≡ of_ℕ 0
  unfolding not_nan round6 get_est_pending_balance
  est_pending_zero info zero by_mul by_div by_round =
      if-true _ _ (by_div _ _ (by_round _ (by_mul _ _ (by_mul _ _ zero))))

  module _ (store : Store)
      (sort_func : (Bytes × F → Bytes × F → ℤ) → List (Bytes × F) → List (Bytes × F)) where
    open store use {B, walk}

    module _ (c : Config) (b : B) (confirmed pending balance : ℕ) (pass : Bytes)
        (offline_after now : F) (s : Statistics float round is_zero) where
      abbrev page : Bytes → Option (Option (AdminPage float round is_zero d))
      page entered =
          admin_page float round is_zero d store sort_func pass entered offline_after now balance s
            b

      -- The amounts of the page, in coins: the balances of the addresses and their pending
      -- balances, in uint64, and what the wallet owns; the debt is what is missing to the sum of
      -- both, and to the balances alone.
      abbrev pub HasAmounts : AdminPage float round is_zero d → Type 0
      HasAmounts p =
          let owes = owed store c (walk b) b % 2 ^ 64 in
          let total = of_ℕ ((owes + pending) % 2 ^ 64) in
          (p.bal_confirmed ≡ div (of_ℕ owes) coin)
          × (p.bal_pending ≡ div (of_ℕ pending) coin)
          × (p.bal_total ≡ div total coin)
          × (p.bal_owned ≡ div (of_ℕ balance) coin)
          × (p.debt ≡ div (sub total (of_ℕ balance)) coin)
          × (p.debt_confirmed ≡ div (sub (of_ℕ owes) (of_ℕ balance)) coin)
