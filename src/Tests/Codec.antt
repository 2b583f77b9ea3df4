-- ===== src/Tests/Codec.antt =====
-- Runs of the theorems on the serializer and the records of the database.
use xelis_pool.Common.Bytes.{◌=?◌, Bytes, codes}
use xelis_pool.Common.{◌≡◌, ◌↔◌, refl, none, some, [], ◌∷◌, ◌++◌, arith, replicate}
use xelis_pool.Serializer.Uvarint.{groups}
use xelis_pool.Common.Assoc.{absent}
use xelis_pool.Serializer.Reader.{Deserializer, invalid_length, read_byte_slice}
use xelis_pool.Serializer.Panics.{DeclaresHuge, read_byte_slice_panics}
use xelis_pool.Database.Records.{UnconfTx, PendingBals}
use xelis_pool.Database.Encode.{serialize_pending_bals}
use xelis_pool.Database.Decode.{deserialize_unconf_tx, deserialize_pending_bals}
use xelis_pool.Database.RoundTrip.{IsTx, deserialize_pending_bals-serialize_pending_bals}
use xelis_pool.Database.Faults.{deserialize_unconf_tx_short_hash}

abbrev a_tx : UnconfTx
a_tx = record {
  unlock_height = 900;
  txn_block_hash = replicate 32 7;
  bals = (codes "a", 10) ∷ (codes "b", 20) ∷ [];
}

a_tx-IsTx : IsTx a_tx
unfolding ◌=?◌
a_tx-IsTx = record {
  height = omega arith;
  hash = refl;
  count = omega arith;
  entries = ((omega arith, omega arith), ((omega arith, omega arith), tt));
  keys = unfold absent in (refl, (refl, tt));
}

abbrev some_pending : PendingBals
some_pending = record { last_height = 880; unconfirmed_txs = a_tx ∷ [] }

deserialize_pending_bals-serialize_pending_bals_example :
    (bs : Bytes) × (serialize_pending_bals some_pending ≡ some bs)
    × (deserialize_pending_bals bs ≡ some (some_pending, none))
deserialize_pending_bals-serialize_pending_bals_example =
    deserialize_pending_bals-serialize_pending_bals some_pending
      (record { height = omega arith; count = omega arith; txs = (a_tx-IsTx, tt) })

-- Ten bytes that declare a slice of 2 ^ 63 bytes.
abbrev huge : Deserializer
huge = record { bytes = replicate 9 128 ++ (1 ∷ []); error = none }

read_byte_slice_panics_example : (read_byte_slice huge ≡ none) ↔ DeclaresHuge huge
read_byte_slice_panics_example = read_byte_slice_panics huge

abbrev failed : Deserializer
failed = record { bytes = 1 ∷ 2 ∷ []; error = some invalid_length }

deserialize_unconf_tx_short_hash_example :
    deserialize_unconf_tx (0 ∷ (groups 9 900 ++ (1 ∷ 2 ∷ 3 ∷ []))) ≡ none
deserialize_unconf_tx_short_hash_example =
    deserialize_unconf_tx_short_hash 900 (1 ∷ 2 ∷ 3 ∷ []) (omega arith) (omega arith)
