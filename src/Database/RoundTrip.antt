-- ===== src/Database/RoundTrip.antt =====
-- Each `Deserialize` of database/database.go gives back what its `Serialize` wrote.
use xelis_pool.Common.{
  ℕ, ◌*◌, ◌^◌, ◌≤◌, ◌<◌, ◌≡◌, none, some, List, [], ◌∷◌, ◌++◌, length, All, arith, append_assoc,
  append-nil, take_all,
}
use xelis_pool.Common.Bytes.{Bytes, IsU64, le_bytes}
use xelis_pool.Common.Assoc.{Assoc, Fresh, Distinct, insert-absent}
use xelis_pool.Serializer.Uvarint.{groups}
use xelis_pool.Serializer.RoundTrip.{
  ready, read_uint8-append, read_uint64-append, read_uvarint-append, read_fixed_byte_array-append,
  read_string-append, read_uvarint_last, read_uint64_last,
}
use xelis_pool.Database.Records.{Share, UnconfTx, PendingBals, AddrInfo}
use xelis_pool.Database.Encode.{serialize_share, serialize_pending_bals, serialize_addr_info}
use xelis_pool.Database.Decode.{
  deserialize_share, read_bals, deserialize_unconf_tx, read_txs, deserialize_pending_bals,
  deserialize_addr_info,
}
use xelis_pool.Database.Layout.{
  serialize_share-layout, serialize_addr_info-layout, bals_bytes, tx_bytes, txs_bytes, HaveHashes,
  pending_bytes, serialize_pending_bals-layout,
}

abbrev pub IsShare : Share → Type 0
IsShare x = (length x.wallet < 2 ^ 63) × IsU64 x.diff × IsU64 x.time

-- A stored share with a wallet shorter than 2 ^ 63 and uint64 numbers is read back, with no error.
pub deserialize_share-serialize_share :
    (x : Share) → IsShare x → deserialize_share (serialize_share x) ≡ some (x, none)
unfolding deserialize_share
deserialize_share-serialize_share x (hw, hd, ht) = rw serialize_share-layout (
    ground (
      arith,
      read_uint8-append 0
          (groups 9 (length x.wallet) ++ (x.wallet ++ (le_bytes 8 x.diff ++ le_bytes 8 x.time))),
      read_string-append x.wallet (le_bytes 8 x.diff ++ le_bytes 8 x.time) hw,
      read_uint64-append x.diff (le_bytes 8 x.time) hd,
      read_uint64_last x.time ht,
    ))

abbrev pub IsInfo : AddrInfo → Type 0
IsInfo x = IsU64 x.balance × IsU64 x.balance_pending × IsU64 x.paid

-- A stored address record with uint64 numbers is read back, with no error.
pub deserialize_addr_info-serialize_addr_info :
    (x : AddrInfo) → IsInfo x → deserialize_addr_info (serialize_addr_info x) ≡ some (x, none)
unfolding deserialize_addr_info
deserialize_addr_info-serialize_addr_info x (hb, hp, hq) = rw serialize_addr_info-layout (
    ground (
      arith,
      read_uint8-append 0 (groups 9 x.balance ++ (groups 9 x.balance_pending ++ groups 9 x.paid)),
      read_uvarint-append x.balance (groups 9 x.balance_pending ++ groups 9 x.paid) hb,
      read_uvarint-append x.balance_pending (groups 9 x.paid) hp,
      read_uvarint_last x.paid hq,
    ))

-- The entries of a balance map fit their encoding.
abbrev pub AreBals : Assoc ℕ → Type 0
AreBals = All (λ e. (length e.0 < 2 ^ 63) × IsU64 e.1)

read_bals-bals_bytes :
    (m seen : Assoc ℕ) (rest : Bytes)
    → AreBals m
    → Fresh seen m
    → read_bals (length m) seen (ready (bals_bytes m ++ rest)) ≡ some (seen ++ m, ready rest)
unfolding read_bals bals_bytes
read_bals-bals_bytes [] seen rest h f = rw append-nil
read_bals-bals_bytes ((i, v) ∷ m) seen rest ((hi, hv), hm) (fresh, f) = ground (
  arith,
  append_assoc (groups 9 (length i)) (i ++ (groups 9 v ++ bals_bytes m)) rest,
  append_assoc i (groups 9 v ++ bals_bytes m) rest,
  append_assoc (groups 9 v) (bals_bytes m) rest,
  read_string-append i (groups 9 v ++ (bals_bytes m ++ rest)) hi,
  read_uvarint-append v (bals_bytes m ++ rest) hv,
  insert-absent i v seen fresh,
  read_bals-bals_bytes m (seen ++ ((i, v) ∷ [])) rest hm f,
  append_assoc seen ((i, v) ∷ []) m,
)

pub record IsTx (x : UnconfTx) : Type 0 where
  pub height : IsU64 x.unlock_height
  pub hash : length x.txn_block_hash ≡ 32
  pub count : length x.bals < 2 ^ 63
  pub entries : AreBals x.bals
  pub keys : Distinct x.bals

-- A pending transaction is read back, with no error, and the rest of the data is left.
pub deserialize_unconf_tx-tx_bytes :
    (x : UnconfTx) (rest : Bytes)
    → IsTx x
    → deserialize_unconf_tx (tx_bytes x ++ rest) ≡ some (x, ready rest)
unfolding deserialize_unconf_tx tx_bytes
deserialize_unconf_tx-tx_bytes x rest h =
    let height = groups 9 x.unlock_height in
    let count = groups 9 (length x.bals) in
    let bals = bals_bytes x.bals in
    ground (
      arith,
      append_assoc height (x.txn_block_hash ++ (count ++ bals)) rest,
      append_assoc x.txn_block_hash (count ++ bals) rest,
      append_assoc count bals rest,
      read_uint8-append 0 (height ++ (x.txn_block_hash ++ (count ++ (bals ++ rest)))),
      read_uvarint-append x.unlock_height (x.txn_block_hash ++ (count ++ (bals ++ rest))) h.height,
      read_fixed_byte_array-append 32 x.txn_block_hash (count ++ (bals ++ rest)) h.hash,
      read_uvarint-append (length x.bals) (bals ++ rest),
      take_all x.txn_block_hash 32 h.hash,
      read_bals-bals_bytes x.bals [] rest h.entries h.keys,
    )

read_txs-txs_bytes :
    (xs seen : List UnconfTx)
    → All IsTx xs
    → read_txs (length xs) seen (txs_bytes xs) ≡ some (seen ++ xs, none)
unfolding read_txs txs_bytes
read_txs-txs_bytes [] seen h = rw append-nil
read_txs-txs_bytes (x ∷ xs) seen (hx, hxs) = ground (
  arith,
  deserialize_unconf_tx-tx_bytes x (txs_bytes xs) hx,
  read_txs-txs_bytes xs (seen ++ (x ∷ [])) hxs,
  append_assoc seen (x ∷ []) xs,
)

-- As many transactions as `make` can allocate.
pub record IsPending (x : PendingBals) : Type 0 where
  pub height : IsU64 x.last_height
  pub count : 48 * length x.unconfirmed_txs ≤ 2 ^ 48
  pub txs : All IsTx x.unconfirmed_txs

have_hashes : (xs : List UnconfTx) → All IsTx xs → HaveHashes xs
have_hashes [] h = tt
have_hashes (x ∷ xs) h = (h.0.hash, have_hashes xs h.1)

-- The writer of the pending balances does not panic, and the reader gives them back with no error:
-- for a uint64 height, as many transactions as `make` can allocate, and transactions with a uint64
-- height, a hash of 32 bytes, distinct addresses shorter than 2 ^ 63 and uint64 amounts.
pub deserialize_pending_bals-serialize_pending_bals :
    (x : PendingBals)
    → IsPending x
    → (bs : Bytes) × (serialize_pending_bals x ≡ some bs)
      × (deserialize_pending_bals bs ≡ some (x, none))
unfolding deserialize_pending_bals
deserialize_pending_bals-serialize_pending_bals x h =
    let txs = x.unconfirmed_txs in
    let height = groups 9 x.last_height in
    let count = groups 9 (length txs) in
    (
      pending_bytes x,
      serialize_pending_bals-layout x (have_hashes txs h.txs),
      ground (
        arith,
        h.count,
        read_uint8-append 0 (height ++ (count ++ txs_bytes txs)),
        read_uvarint-append x.last_height (count ++ txs_bytes txs) h.height,
        read_uvarint-append (length txs) (txs_bytes txs),
        read_txs-txs_bytes txs [] h.txs,
      ),
    )
