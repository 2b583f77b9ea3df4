-- ===== src/Database/Encode.antt =====
-- The `Serialize` methods of database/database.go.
use xelis_pool.Common.{ℕ, Option, none, some, List, [], ◌∷◌, ◌++◌, length}
use xelis_pool.Common.Bytes.{Bytes}
use xelis_pool.Common.Assoc.{Assoc}
use xelis_pool.Serializer.Writer.{
  Serializer, add_uint8, add_uint64, add_uvarint, add_string, add_fixed_byte_array,
}
use xelis_pool.Database.Records.{Share, UnconfTx, PendingBals, AddrInfo}

abbrev pub version : ℕ
version = 0

-- `serializer.Serializer{}` with the version in it.
abbrev pub start : Serializer
unfolding add_uint8
start = add_uint8 (record { bytes = [] }) version

unfoldable pub serialize_share : Share → Bytes
unfolding start add_string add_uint64
serialize_share x = (add_uint64 (add_uint64 (add_string start x.wallet) x.diff) x.time).bytes

unfoldable pub add_bals : Serializer → Assoc ℕ → Serializer
unfolding add_string add_uvarint
add_bals s [] = s
add_bals s ((i, v) ∷ m) = add_bals (add_uvarint (add_string s i) v) m

-- `none`: the panic of `AddFixedByteArray`.
unfoldable pub serialize_unconf_tx : UnconfTx → Option Bytes
unfolding start add_uvarint add_bals add_fixed_byte_array
serialize_unconf_tx x =
    elim (add_fixed_byte_array (add_uvarint start x.unlock_height) x.txn_block_hash 32) [
      | none ↦ none
      | some s ↦ some (add_bals (add_uvarint s (length x.bals)) x.bals).bytes
    ]

unfoldable pub add_txs : Bytes → List UnconfTx → Option Bytes
add_txs bs [] = some bs
add_txs bs (x ∷ xs) = elim (serialize_unconf_tx x) [ none ↦ none | some b ↦ add_txs (bs ++ b) xs ]

unfoldable pub serialize_pending_bals : PendingBals → Option Bytes
unfolding start add_uvarint
serialize_pending_bals x =
    let s = add_uvarint (add_uvarint start x.last_height) (length x.unconfirmed_txs) in
    add_txs s.bytes x.unconfirmed_txs

unfoldable pub serialize_addr_info : AddrInfo → Bytes
unfolding start add_uvarint
serialize_addr_info x =
    (add_uvarint (add_uvarint (add_uvarint start x.balance) x.balance_pending) x.paid).bytes
