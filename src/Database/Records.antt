-- ===== src/Database/Records.antt =====
-- The record types of database/database.go.
use xelis_pool.Common.{ℕ, ◌+◌, ◌%◌, ◌^◌, List, [], ◌∷◌}
use xelis_pool.Common.Bytes.{Bytes}
use xelis_pool.Common.Assoc.{Assoc}

pub record Share : Type 0 where
  pub wallet : Bytes
  pub diff : ℕ
  pub time : ℕ

pub record UnconfTx : Type 0 where
  pub unlock_height : ℕ
  pub txn_block_hash : Bytes
  pub bals : Assoc ℕ

pub record PendingBals : Type 0 where
  pub last_height : ℕ
  pub unconfirmed_txs : List UnconfTx

pub record AddrInfo : Type 0 where
  pub balance : ℕ
  pub balance_pending : ℕ
  pub paid : ℕ

-- The zero value.
abbrev pub no_info : AddrInfo
no_info = record { balance = 0; balance_pending = 0; paid = 0 }

-- `money += v` over the map, in uint64.
unfoldable pub total_from : ℕ → Assoc ℕ → ℕ
total_from money [] = money
total_from money ((k, v) ∷ m) = total_from ((money + v) % 2 ^ 64) m

unfoldable pub get_total_money : UnconfTx → ℕ
unfolding total_from
get_total_money x = total_from 0 x.bals
