-- ===== src/Tests/Confirm.antt =====
-- Runs of the theorems on the confirmation of rewards.
use xelis_pool.Database.Records.{get_total_money, UnconfTx, PendingBals}
use xelis_pool.Master.Confirm.{multiplier, Block, pending_key, credit_loop, Checked, check_withdraw}
use xelis_pool.Pow.Algorithm.{to_lower}
use xelis_pool.Serializer.Reader.{
  slice_of, read_string, read_fixed_byte_array, read_uvarint, fixed, read_uint8,
}
use xelis_pool.Database.Decode.{
  read_bals, deserialize_unconf_tx, read_txs, deserialize_addr_info, deserialize_pending_bals,
}
use xelis_pool.Common.Assoc.{absent, insert, lookup, Assoc}
use xelis_pool.Serializer.Uvarint.{groups, uvarint_loop, uvarint}
use xelis_pool.Database.Encode.{serialize_addr_info}
use xelis_pool.Common.Bytes.{◌=?◌, Bytes, codes}
use xelis_pool.Common.{ℕ, ◌≡◌, refl, true, none, some, [], ◌∷◌, ◌++◌, Option, arith, replicate}
use xelis_pool.Master.Store.{memory, balance_at}
use xelis_pool.Master.Confirm.Credits.{balance_after, credit_loop_lem}
use xelis_pool.Master.Confirm.Payment.{IsGood, check_withdraw_pays}
use xelis_pool.Tests.Samples.{whole_numbers}

-- The address "a" has a balance of 5.
abbrev some_infos : Assoc Bytes
some_infos = (codes "a", 0 ∷ 5 ∷ 10 ∷ 0 ∷ []) ∷ []

abbrev credited_infos : Assoc Bytes
credited_infos = (codes "a", 0 ∷ 15 ∷ 10 ∷ 0 ∷ []) ∷ []

abbrev ten_for_a : Assoc ℕ
ten_for_a = (codes "a", 10) ∷ []

some_infos_credited :
    credit_loop whole_numbers memory [] 1 ten_for_a some_infos ≡ some credited_infos
unfolding credit_loop lookup ◌=?◌ deserialize_addr_info read_uint8 fixed read_uvarint uvarint
    uvarint_loop insert serialize_addr_info groups
some_infos_credited = refl

credit_loop_lem_example :
    balance_at memory (codes "a") credited_infos
    ≡ balance_after whole_numbers memory [] 1 ten_for_a
        (codes "a")
        (balance_at memory (codes "a") some_infos)
unfolding absent
credit_loop_lem_example =
    credit_loop_lem whole_numbers memory [] 1 ten_for_a some_infos credited_infos (codes "a")
      (refl, tt) some_infos_credited

abbrev ripe_tx : UnconfTx
ripe_tx = record { unlock_height = 900; txn_block_hash = replicate 32 0; bals = ten_for_a }

abbrev one_pending : PendingBals
one_pending = record { last_height = 880; unconfirmed_txs = ripe_tx ∷ [] }

abbrev one_pending_bytes : Bytes
one_pending_bytes = 0 ∷ 240 ∷ 6 ∷ 1 ∷ 0 ∷ 132 ∷ 7 ∷ (replicate 32 0 ++ (1 ∷ 1 ∷ 97 ∷ 10 ∷ []))

one_pending_read : deserialize_pending_bals one_pending_bytes ≡ some (one_pending, none)
unfolding deserialize_pending_bals read_uint8 fixed read_uvarint uvarint uvarint_loop read_txs
    deserialize_unconf_tx read_fixed_byte_array read_bals read_string slice_of insert
one_pending_read = refl

abbrev a_pending_bucket : Assoc Bytes
a_pending_bucket = (pending_key, one_pending_bytes) ∷ []

abbrev side_block : Block
side_block = record { block_type = codes "Side"; miner_reward = some 10 }

abbrev the_daemon : Bytes → Option Block
the_daemon hash = some side_block

pending_found : memory.get pending_key a_pending_bucket ≡ some one_pending_bytes
unfolding lookup ◌=?◌
pending_found = refl

side_block-IsGood : IsGood side_block 10
unfolding ◌=?◌ to_lower
side_block-IsGood = record { kept = refl; paid = refl }

check_withdraw_pays_example :
    (r : Checked whole_numbers memory []) × (check_withdraw whole_numbers memory [] 1000 the_daemon
        0 some_infos a_pending_bucket
      ≡ some r)
    × (r.changed ≡ true)
    × ((k : Bytes)
        → balance_at memory k r.infos
          ≡ balance_after whole_numbers memory [] 1 ten_for_a k (balance_at memory k some_infos))
    × (v : Bytes) × (memory.get pending_key r.pending ≡ some v)
    × (deserialize_pending_bals v ≡ some (record { last_height = 880; unconfirmed_txs = [] }, none))
unfolding absent multiplier get_total_money insert ◌=?◌
check_withdraw_pays_example =
    check_withdraw_pays whole_numbers memory [] 1000 the_daemon 0 some_infos credited_infos
      a_pending_bucket one_pending ripe_tx [] one_pending_bytes side_block 10 pending_found
      one_pending_read refl (omega arith) refl side_block-IsGood (refl, tt)
      (record { height = omega arith; count = omega arith; txs = tt }) some_infos_credited
      (λ v. ((pending_key, v) ∷ [], refl))
