-- ===== src/Tests/Rewards.antt =====
-- Runs of the theorems on how often a reward is shared out.
use xelis_pool.Database.Decode.{read_txs, deserialize_share, deserialize_pending_bals}
use xelis_pool.Serializer.Reader.{
  read_uvarint, slice_of, read_uint64, fixed, read_uint8, read_string,
}
use xelis_pool.Common.Assoc.{lookup_or, insert, absent}
use xelis_pool.Common.Bytes.{le_value, Bytes, ◌=?◌}
use xelis_pool.Serializer.Uvarint.{uvarint_loop, uvarint}
use xelis_pool.Common.Hex.{decode_hex}
use xelis_pool.Common.{◌≡◌, refl, none, some, [], ◌∷◌, arith, ◌++◌}
use xelis_pool.Database.RoundTrip.{IsTx}
use xelis_pool.Master.Store.{memory}
use xelis_pool.Master.Heights.{Books, update_run}
use xelis_pool.Master.Heights.Restart.{restart_forgets}
use xelis_pool.Master.Rewards.{
  Transfer, sort_transfers, Setting, Progress, add_transfer, transfer_loop,
}
use xelis_pool.Master.Rewards.Twice.{second_pass_adds_nothing}
use xelis_pool.Tests.Samples.{whole_numbers}
use xelis_pool.Tests.Money.{
  a_bucket, a_setting, a_transfer, a_progress, a_result, a_result_lem, the_tx,
}
use xelis_pool.Master.Heights.Ahead.{Leaves, ahead_of_chain_pays_twice}
use xelis_pool.Database.Records.{UnconfTx, get_total_money}

one_pass : transfer_loop whole_numbers a_setting 880 (a_transfer ∷ []) a_progress ≡ some a_result
unfolding transfer_loop decode_hex deserialize_share read_string read_uint8 fixed read_uint64
    uvarint uvarint_loop slice_of le_value
one_pass = a_result_lem

second_pass_adds_nothing_example :
    transfer_loop whole_numbers a_setting 901 (a_transfer ∷ []) a_progress ≡ some a_progress
second_pass_adds_nothing_example =
    second_pass_adds_nothing whole_numbers a_setting 880 (a_transfer ∷ []) a_progress a_result
      a_progress a_setting (omega arith, tt) refl one_pass

-- The master knows the height 899, and the wallet has a reward at the height 900.
abbrev behind : Setting whole_numbers
behind = record a_setting { master_height = 899 }

abbrev first_time : Progress whole_numbers
first_time = record a_result { next_height = 899 }

abbrev later_progress : Progress whole_numbers
later_progress = record a_progress { txs = the_tx ∷ []; next_height = 899 }

abbrev second_time : Progress whole_numbers
second_time = record a_result { txs = the_tx ∷ the_tx ∷ [] }

first_time_lem : add_transfer whole_numbers behind a_transfer a_progress ≡ some first_time
unfolding add_transfer deserialize_share read_uint8 fixed read_string uvarint uvarint_loop slice_of
    read_uint64 le_value decode_hex insert ◌=?◌ lookup_or
first_time_lem = refl

second_time_lem : add_transfer whole_numbers a_setting a_transfer later_progress ≡ some second_time
unfolding add_transfer deserialize_share read_uint8 fixed read_string uvarint uvarint_loop slice_of
    read_uint64 le_value decode_hex insert ◌=?◌ lookup_or
second_time_lem = refl

-- The master was down from the height 880 to 901, and the wallet has a reward at 900.
abbrev before_start : Bytes
before_start = 0 ∷ 240 ∷ 6 ∷ 0 ∷ []

before_start_lem :
    deserialize_pending_bals before_start
    ≡ some (record { last_height = 880; unconfirmed_txs = [] }, none)
unfolding deserialize_pending_bals read_uint8 fixed read_uvarint uvarint uvarint_loop read_txs
before_start_lem = refl

abbrev fresh_books : Books whole_numbers memory
fresh_books = record {
  min_height = 0;
  shares = a_progress.shares;
  infos = a_bucket;
  pending = some before_start;
}

the_tx-IsTx : IsTx the_tx
unfolding ◌=?◌
the_tx-IsTx = record {
  height = omega arith;
  hash = refl;
  count = omega arith;
  entries = ((omega arith, omega arith), ((omega arith, omega arith), tt));
  keys = unfold absent in (refl, (refl, tt));
}

one_listed : sort_transfers (a_transfer ∷ []) ≡ a_transfer ∷ []
unfolding sort_transfers
one_listed = refl

one_sorted_pass :
    transfer_loop whole_numbers a_setting 880 (sort_transfers (a_transfer ∷ [])) a_progress
    ≡ some a_result
unfolding sort_transfers
one_sorted_pass = one_pass

abbrev lost_transfer : Transfer
lost_transfer = record a_transfer { topoheight = 890 }

restart_forgets_example :
    let s = update_run whole_numbers memory a_setting (λ m. some (a_transfer ∷ [])) fresh_books in
    (update_run whole_numbers memory a_setting (λ m. some (lost_transfer ∷ [])) s).pending
    ≡ s.pending
restart_forgets_example =
    restart_forgets whole_numbers memory a_setting fresh_books (λ m. some (a_transfer ∷ []))
      (a_transfer ∷ []) [] before_start (record { last_height = 880; unconfirmed_txs = [] })
      a_transfer a_result refl (omega arith) refl before_start_lem refl one_listed (omega arith, tt)
      (omega arith, tt) one_sorted_pass
      (record { height = omega arith; count = omega arith; txs = (the_tx-IsTx, tt) }) a_setting
      (lost_transfer ∷ []) (omega arith, tt)

-- The wallet lists a reward at the height 900, and the master knows the height 899.
ahead_of_chain_pays_twice_example :
    let first = update_run whole_numbers memory behind (λ m. some (a_transfer ∷ [])) fresh_books in
    let second = update_run whole_numbers memory a_setting (λ m. some (a_transfer ∷ [])) first in
    Leaves whole_numbers memory second second_time
    × ((a : UnconfTx) × (b : UnconfTx) × (second_time.txs ≡ ([] ++ (a ∷ [])) ++ (b ∷ []))
        × (get_total_money a ≡ whole_numbers.to_ℕ (whole_numbers.of_ℕ 1000))
        × (get_total_money b ≡ whole_numbers.to_ℕ (whole_numbers.of_ℕ 1000)))
ahead_of_chain_pays_twice_example =
    ahead_of_chain_pays_twice whole_numbers memory behind a_setting fresh_books a_transfer
      before_start (record { last_height = 880; unconfirmed_txs = [] }) first_time second_time refl
      before_start_lem (omega arith) (omega arith) first_time_lem
      (record { height = omega arith; count = omega arith; txs = (the_tx-IsTx, tt) })
      second_time_lem
      (record { height = omega arith; count = omega arith; txs = (the_tx-IsTx, (the_tx-IsTx, tt)) })
