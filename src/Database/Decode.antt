-- ===== src/Database/Decode.antt =====
-- The `Deserialize` methods of database/database.go. A method gives the record that it filled with
-- the error that it returned; the outer `none` is a Go panic.
use xelis_pool.Common.{
  ℕ, zero, suc, ◌*◌, ◌^◌, Option, none, some, List, [], ◌∷◌, ◌++◌, length, take, ltb, if◌then◌else◌,
}
use xelis_pool.Common.Bytes.{Bytes}
use xelis_pool.Common.Assoc.{Assoc, insert}
use xelis_pool.Serializer.Reader.{
  Error, Deserializer, Reader, ◌>>=◌, ◌>>◌, pure, read_uint8, read_uint64, read_uvarint,
  read_fixed_byte_array, read_string,
}
use xelis_pool.Database.Records.{Share, UnconfTx, PendingBals, AddrInfo}

abbrev pub open_reader : Bytes → Deserializer
open_reader bs = record { bytes = bs; error = none }

-- `return d.Error`, beside the filled record.
abbrev pub finish {ℓ} : {A : Type ℓ} → Reader A → Bytes → Option (A × Option Error)
finish m bs = elim (m (open_reader bs)) [ none ↦ none | some (a, d) ↦ some (a, d.error) ]

unfoldable pub share_reader : Reader Share
share_reader = do
  read_uint8
  wallet ← read_string
  diff ← read_uint64
  time ← read_uint64
  pure (record { wallet = wallet; diff = diff; time = time })

unfoldable pub deserialize_share : Bytes → Option (Share × Option Error)
unfolding share_reader
deserialize_share bs = finish share_reader bs

-- `[32]byte(b)`: a panic on a shorter slice.
abbrev pub to_array32 : Bytes → Reader Bytes
to_array32 b d = if ltb (length b) 32 then none else some (take 32 b, d)

-- `x.Bals[d.ReadString()] = d.ReadUvarint()`, the key first.
unfoldable pub read_bals : ℕ → Assoc ℕ → Reader (Assoc ℕ)
read_bals zero bals = pure bals
read_bals (suc n) bals = do i ← read_string; v ← read_uvarint; read_bals n (insert i v bals)

-- A count from 2 ^ 63 on is a negative `int`, for which the loop has no round.
abbrev pub rounds : ℕ → ℕ
rounds n = if ltb n (2 ^ 63) then n else 0

unfoldable pub unconf_tx_reader : Reader UnconfTx
unconf_tx_reader = do
  read_uint8
  height ← read_uvarint
  hash ← read_fixed_byte_array 32
  array ← to_array32 hash
  count ← read_uvarint
  bals ← read_bals (rounds count) []
  pure (record { unlock_height = height; txn_block_hash = array; bals = bals })

-- The rest of the data and the error are those of the final state.
unfoldable pub deserialize_unconf_tx : Bytes → Option (UnconfTx × Deserializer)
unfolding unconf_tx_reader
deserialize_unconf_tx bs = unconf_tx_reader (open_reader bs)

-- The loop ends at the first record with an error and returns that error.
unfoldable pub read_txs : ℕ → List UnconfTx → Bytes → Option (List UnconfTx × Option Error)
read_txs zero txs bs = some (txs, none)
read_txs (suc n) txs bs = elim (deserialize_unconf_tx bs) [
  | none ↦ none
  | some (x, d) ↦ elim d.error [
    | none ↦ read_txs n (txs ++ (x ∷ [])) d.bytes
    | some e ↦ some (txs, some e)
  ]
]

abbrev or_error : Option Error → Option Error → Option Error
or_error (some e) later = some e
or_error none later = later

abbrev with_height :
    ℕ → Option Error → Option (List UnconfTx × Option Error) → Option (PendingBals × Option Error)
with_height height own none = none
with_height height own (some (txs, e)) =
    some (record { last_height = height; unconfirmed_txs = txs }, or_error e own)

-- `make([]UnconfTx, 0, n)` panics where `n` elements of 48 bytes pass the 2 ^ 48 bytes of the
-- address space, a negative `int` included.
abbrev filled : ℕ → ℕ → Deserializer → Option (PendingBals × Option Error)
filled height count d =
    if ltb (2 ^ 48) (48 * count)
    then none
    else with_height height d.error (read_txs count [] d.bytes)

unfoldable pub pending_head : Reader (ℕ × ℕ)
pending_head = do read_uint8; height ← read_uvarint; count ← read_uvarint; pure (height, count)

unfoldable pub deserialize_pending_bals : Bytes → Option (PendingBals × Option Error)
unfolding pending_head
deserialize_pending_bals bs = elim (pending_head (open_reader bs)) [
  | none ↦ none
  | some ((height, count), d) ↦ filled height count d
]

unfoldable pub addr_info_reader : Reader AddrInfo
addr_info_reader = do
  read_uint8
  balance ← read_uvarint
  pending ← read_uvarint
  paid ← read_uvarint
  pure (record { balance = balance; balance_pending = pending; paid = paid })

unfoldable pub deserialize_addr_info : Bytes → Option (AddrInfo × Option Error)
unfolding addr_info_reader
deserialize_addr_info bs = finish addr_info_reader bs
