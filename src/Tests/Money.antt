-- ===== src/Tests/Money.antt =====
-- Runs of the theorems on payouts and rewards.
use xelis_pool.Database.Encode.{add_txs, serialize_addr_info, serialize_pending_bals}
use xelis_pool.Common.Assoc.{absent, lookup_or, absent, lookup, insert, Assoc}
use xelis_pool.Common.Hex.{decode_hex}
use xelis_pool.Common.Bytes.{le_value, ◌=?◌, Bytes, codes}
use xelis_pool.Serializer.Reader.{
  read_uint64, slice_of, read_string, read_uvarint, fixed, read_uint8,
}
use xelis_pool.Database.Decode.{deserialize_share, deserialize_addr_info}
use xelis_pool.Serializer.Uvarint.{groups, uvarint_loop, uvarint}
use xelis_pool.Common.{
  none, List, Option, ◌⊎◌, ℕ, ◌+◌, ◌%◌, ◌^◌, ◌≡◌, refl, some, [], ◌∷◌, ◌++◌, arith, replicate,
  false,
}
use xelis_pool.Master.Withdraw.Listed.{listed, IsRolledBack, withdraw_listed_conserves}
use xelis_pool.Master.Withdraw.{
  TransferOut, withdraw_listed, payee, has_destination, Config, Payout, pay_loop,
}
use xelis_pool.Database.Records.{UnconfTx, PendingBals, AddrInfo, get_total_money}
use xelis_pool.Master.Store.{memory}
use xelis_pool.Master.Withdraw.Owed.{owed, total_amount, IsWalk}
use xelis_pool.Master.Withdraw.Conservation.{pay_loop_conserves}
use xelis_pool.Master.Rewards.{Transfer, Setting, Progress, Updated, run_update, add_transfer}
use xelis_pool.Master.Rewards.Sums.{add_transfer-shares_out}
use xelis_pool.Master.Rewards.Pending.{HasPending, old_transfers_forget_pending}
use xelis_pool.Tests.Samples.{whole_numbers}

abbrev a_config : Config
a_config = record {
  pool_address = codes "p";
  fee_address = codes "f";
  banned = [];
  min_withdrawal = 100;
  withdrawal_fee = 10;
}

abbrev info_of : ℕ → ℕ → AddrInfo
info_of balance paid = record { balance = balance; balance_pending = 0; paid = paid }

-- Two addresses, one of them above the threshold.
abbrev pub a_bucket : Assoc Bytes
a_bucket = (codes "a", 0 ∷ 120 ∷ 0 ∷ 3 ∷ []) ∷ (codes "b", 0 ∷ 50 ∷ 0 ∷ 0 ∷ []) ∷ []

abbrev a_payout : Payout memory a_config
a_payout = record {
  bucket = (codes "a", 0 ∷ 0 ∷ 0 ∷ 123 ∷ []) ∷ (codes "b", 0 ∷ 50 ∷ 0 ∷ 0 ∷ []) ∷ [];
  destinations = record { amount = 110; destination = codes "a" } ∷ [];
  fee_revenue = 10;
  unpaid = false;
}

a_payout_lem :
    pay_loop memory a_config a_bucket
      (record { bucket = a_bucket; destinations = []; fee_revenue = 0; unpaid = false })
    ≡ some a_payout
unfolding pay_loop deserialize_addr_info read_uint8 fixed read_uvarint uvarint uvarint_loop
    has_destination insert payee ◌=?◌ serialize_addr_info groups
a_payout_lem = refl

a_bucket-IsWalk : IsWalk memory a_config a_bucket a_bucket
unfolding lookup ◌=?◌ absent
a_bucket-IsWalk = (refl, refl, (refl, refl, tt))

pay_loop_conserves_example :
    (owed memory a_config a_bucket a_payout.bucket
        + total_amount a_payout.destinations
        + a_payout.fee_revenue)
      % 2 ^ 64
    ≡ owed memory a_config a_bucket a_bucket % 2 ^ 64
pay_loop_conserves_example =
    pay_loop_conserves memory a_config a_bucket a_payout (omega arith) a_bucket-IsWalk a_payout_lem

abbrev a_wallet : List TransferOut → Option Bytes
a_wallet ts = some (codes "tx")

withdraw_listed_conserves_example :
    let (r, recent) = withdraw_listed memory a_config a_wallet 1000 a_bucket [] in
    ((owed memory a_config a_bucket r.final + listed 10 recent) % 2 ^ 64
      ≡ (owed memory a_config a_bucket a_bucket + listed 10 []) % 2 ^ 64)
    ⊎ IsRolledBack memory a_config a_wallet 1000 a_bucket [] r.final recent
withdraw_listed_conserves_example =
    withdraw_listed_conserves memory a_config a_wallet 1000 a_bucket [] (omega arith)
      a_bucket-IsWalk

abbrev pub a_setting : Setting whole_numbers
a_setting = record {
  fee_address = codes "f";
  fee_percent = 1;
  min_confs = 60;
  window = 3600;
  now = 2000;
  master_height = 901;
}

abbrev pub a_transfer : Transfer
a_transfer = record { topoheight = 900; reward = 1000; hash = replicate 64 48 }

-- One share of difficulty 100 at the time 1000.
abbrev pub a_progress : Progress whole_numbers
a_progress = record {
  shares = (0 ∷ [], 0 ∷ 1 ∷ 97 ∷ (100 ∷ replicate 7 0) ++ (232 ∷ 3 ∷ replicate 6 0)) ∷ [];
  txs = [];
  totals = [];
  next_height = 880;
}

abbrev pub the_tx : UnconfTx
the_tx = record {
  unlock_height = 960;
  txn_block_hash = replicate 32 0;
  bals = (codes "a", 990) ∷ (codes "f", 10) ∷ [];
}

abbrev pub a_result : Progress whole_numbers
a_result = record a_progress { txs = the_tx ∷ []; totals = the_tx.bals; next_height = 901 }

pub a_result_lem : add_transfer whole_numbers a_setting a_transfer a_progress ≡ some a_result
unfolding add_transfer deserialize_share read_uint8 fixed read_string uvarint uvarint_loop slice_of
    read_uint64 le_value decode_hex insert ◌=?◌ lookup_or
a_result_lem = refl

add_transfer-shares_out_example :
    (tx : UnconfTx) × (a_result.txs ≡ a_progress.txs ++ (tx ∷ [])) × (get_total_money tx ≡ 1000)
add_transfer-shares_out_example =
    add_transfer-shares_out whole_numbers a_setting a_transfer a_progress a_result a_result_lem

abbrev an_old : PendingBals
an_old = record { last_height = 900; unconfirmed_txs = [] }

-- The record of "b" in the bucket.
b_record_lem : deserialize_addr_info (0 ∷ 50 ∷ 0 ∷ 0 ∷ []) ≡ some (info_of 50 0, none)
unfolding deserialize_addr_info read_uint8 fixed read_uvarint uvarint uvarint_loop
b_record_lem = refl

an_old_lem : serialize_pending_bals an_old ≡ some (0 ∷ 132 ∷ 7 ∷ 0 ∷ [])
unfolding serialize_pending_bals add_txs groups
an_old_lem = refl

old_transfers_forget_pending_example :
    (u : Updated whole_numbers a_setting memory) × (run_update whole_numbers a_setting memory
        (a_transfer ∷ [])
        []
        a_bucket
        an_old
      ≡ some u)
    × (u.shares ≡ [])
    × (u.pending ≡ 0 ∷ 132 ∷ 7 ∷ 0 ∷ [])
    × HasPending whole_numbers a_setting memory
        (codes "b")
        (0 ∷ 50 ∷ 0 ∷ 0 ∷ [])
        (info_of 50 0)
        b_record_lem
        (λ k v b. (insert k v b, refl))
        0
        u.infos
old_transfers_forget_pending_example =
    old_transfers_forget_pending whole_numbers a_setting memory (codes "b") (0 ∷ 50 ∷ 0 ∷ 0 ∷ [])
      (info_of 50 0) b_record_lem (λ k v b. (insert k v b, refl)) (a_transfer ∷ []) [] a_bucket
      an_old (0 ∷ 132 ∷ 7 ∷ 0 ∷ []) ((codes "a", 0 ∷ 120 ∷ 0 ∷ 3 ∷ []) ∷ []) [] (omega arith, tt)
      an_old_lem refl (unfold absent in refl)
