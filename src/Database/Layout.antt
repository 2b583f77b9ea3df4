-- ===== src/Database/Layout.antt =====
-- The bytes that the `Serialize` methods write, bracketed to the right.
use xelis_pool.Common.{
  ℕ, ◌≡◌, ◌∙◌, sym, some, List, [], ◌∷◌, ◌++◌, length, All, append_assoc, append-nil, ==_iff,
}
use xelis_pool.Common.Bytes.{Bytes, le_bytes}
use xelis_pool.Common.Assoc.{Assoc}
use xelis_pool.Serializer.Uvarint.{groups}
use xelis_pool.Serializer.Writer.{Serializer, add_string, add_uvarint}
use xelis_pool.Database.Records.{Share, UnconfTx, PendingBals, AddrInfo}
use xelis_pool.Database.Encode.{
  serialize_share, add_bals, serialize_unconf_tx, add_txs, serialize_pending_bals,
  serialize_addr_info,
}

abbrev pub share_bytes : Share → Bytes
share_bytes x =
    0 ∷ (groups 9 (length x.wallet) ++ (x.wallet ++ (le_bytes 8 x.diff ++ le_bytes 8 x.time)))

pub serialize_share-layout : (x : Share) → serialize_share x ≡ share_bytes x
unfolding serialize_share
serialize_share-layout x = simp append_assoc

abbrev pub info_bytes : AddrInfo → Bytes
info_bytes x = 0 ∷ (groups 9 x.balance ++ (groups 9 x.balance_pending ++ groups 9 x.paid))

pub serialize_addr_info-layout : (x : AddrInfo) → serialize_addr_info x ≡ info_bytes x
unfolding serialize_addr_info
serialize_addr_info-layout x = simp append_assoc

unfoldable pub bals_bytes : Assoc ℕ → Bytes
bals_bytes [] = []
bals_bytes ((i, v) ∷ m) = groups 9 (length i) ++ (i ++ (groups 9 v ++ bals_bytes m))

add_bals-layout : (s : Serializer) (m : Assoc ℕ) → (add_bals s m).bytes ≡ s.bytes ++ bals_bytes m
unfolding add_bals bals_bytes
add_bals-layout s [] = sym (append-nil s.bytes)
add_bals-layout s ((i, v) ∷ m) =
    add_bals-layout (add_uvarint (add_string s i) v) m ∙ simp append_assoc

unfoldable pub tx_bytes : UnconfTx → Bytes
tx_bytes x =
    0
    ∷ (groups 9 x.unlock_height
        ++ (x.txn_block_hash ++ (groups 9 (length x.bals) ++ bals_bytes x.bals)))

pub serialize_unconf_tx-layout :
    (x : UnconfTx) → length x.txn_block_hash ≡ 32 → serialize_unconf_tx x ≡ some (tx_bytes x)
unfolding serialize_unconf_tx tx_bytes
serialize_unconf_tx-layout x h =
    rw ((==_iff _ 32).1 h, serialize_unconf_tx) (rw add_bals-layout (simp append_assoc))

unfoldable pub txs_bytes : List UnconfTx → Bytes
txs_bytes [] = []
txs_bytes (x ∷ xs) = tx_bytes x ++ txs_bytes xs

-- Every transaction block hash has its 32 bytes.
abbrev pub HaveHashes : List UnconfTx → Type 0
HaveHashes = All (λ x. length x.txn_block_hash ≡ 32)

add_txs-layout :
    (bs : Bytes) (xs : List UnconfTx) → HaveHashes xs → add_txs bs xs ≡ some (bs ++ txs_bytes xs)
unfolding add_txs txs_bytes
add_txs-layout bs [] h = rw append-nil
add_txs-layout bs (x ∷ xs) h =
    rw (serialize_unconf_tx-layout x h.0, add_txs)
      (add_txs-layout (bs ++ tx_bytes x) xs h.1 ∙ rw append_assoc)

abbrev pub pending_bytes : PendingBals → Bytes
pending_bytes x =
    0
    ∷ (groups 9 x.last_height
        ++ (groups 9 (length x.unconfirmed_txs) ++ txs_bytes x.unconfirmed_txs))

pub serialize_pending_bals-layout :
    (x : PendingBals)
    → HaveHashes x.unconfirmed_txs
    → serialize_pending_bals x ≡ some (pending_bytes x)
unfolding serialize_pending_bals
serialize_pending_bals-layout x h = add_txs-layout _ x.unconfirmed_txs h ∙ simp append_assoc
