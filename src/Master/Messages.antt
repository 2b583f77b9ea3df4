-- ===== src/Master/Messages.antt =====
-- `OnMessage` of cmd/master/handler.go: what the master does with a message of a slave. The effects
-- on the state and the network are named by an action.
use xelis_pool.Common.{ℕ, ◌+◌, ◌%◌, ◌^◌, Option, none, some, List, [], ◌∷◌, ◌==◌, if◌then◌else◌}
use xelis_pool.Common.Bytes.{Bytes}
use xelis_pool.Common.Hex.{encode_hex}
use xelis_pool.Serializer.Writer.{add_uint64, add_string}
use xelis_pool.Serializer.Reader.{
  Reader, ◌>>=◌, pure, read_uint8, read_uint64, read_uvarint, read_string, read_fixed_byte_array,
}

-- `banM2S.Serialize`
unfoldable pub serialize_ban : Bytes → ℕ → Bytes
unfolding add_string add_uint64
serialize_ban ip ends = (add_uint64 (add_string (record { bytes = 0 ∷ [] }) ip) ends).bytes

pub data Action : Type 0 where
  -- `OnShareFound` with the wallet, the difficulty and the number of shares
  share_found : Bytes → ℕ → ℕ → Action
  -- `OnBlockFound` with the hash in hexadecimal
  block_found : Bytes → Action
  -- the number of connections of the slave
  stats : ℕ → Action
  -- a message back to the slave
  reply : Bytes → Action
  -- an error is logged
  malformed unknown : Action

-- `if d.Error != nil { return }`
unfoldable pub checked : Action → Reader Action
checked a d = elim d.error [ none ↦ some (a, d) | some e ↦ some (malformed, d) ]

unfoldable pub share_packet : Reader Action
unfolding checked
share_packet = do
  count ← read_uvarint
  wallet ← read_string
  diff ← read_uvarint
  checked (share_found wallet diff (count % 2 ^ 32))

unfoldable pub block_packet : Reader Action
unfolding checked
block_packet = do hash ← read_fixed_byte_array 32; checked (block_found (encode_hex hash))

unfoldable pub stats_packet : Reader Action
unfolding checked
stats_packet = do conns ← read_uvarint; checked (stats (conns % 2 ^ 32))

-- The reply is sent without a test for errors.
unfoldable pub ban_packet : Reader Action
unfolding serialize_ban
ban_packet = do ip ← read_string; ends ← read_uint64; pure (reply (serialize_ban ip ends))

unfoldable pub dispatch : ℕ → Reader Action
dispatch kind =
    if kind == 0
    then share_packet
    else if kind == 1
    then block_packet
    else if kind == 2
    then stats_packet
    else if kind == 4
    then ban_packet
    else pure unknown

unfoldable pub on_message : Bytes → Option Action
unfolding dispatch
on_message msg =
    elim ((do kind ← read_uint8; dispatch kind) (record { bytes = msg; error = none })) [
      | none ↦ none
      | some (a, d) ↦ some a
    ]

-- `numConns` and `Stats.Workers`, both under the lock of the statistics.
pub record Workers : Type 0 where
  pub num_conns : List (ℕ × ℕ)
  pub workers : ℕ

unfoldable pub set_conns : ℕ → ℕ → List (ℕ × ℕ) → List (ℕ × ℕ)
set_conns id n [] = (id, n) ∷ []
set_conns id n ((j, m) ∷ rest) = if j == id then (id, n) ∷ rest else (j, m) ∷ set_conns id n rest

unfoldable pub delete_conns : ℕ → List (ℕ × ℕ) → List (ℕ × ℕ)
delete_conns id [] = []
delete_conns id ((j, m) ∷ rest) =
    let others = delete_conns id rest in if j == id then others else (j, m) ∷ others

unfoldable pub sum_conns : ℕ → List (ℕ × ℕ) → ℕ
sum_conns acc [] = acc
sum_conns acc ((j, m) ∷ rest) = sum_conns ((acc + m) % 2 ^ 32) rest

-- A stats packet sets the slave's number and counts the workers anew, in uint32.
unfoldable pub on_stats : ℕ → ℕ → Workers → Workers
unfolding set_conns sum_conns
on_stats id conns w =
    let all = set_conns id conns w.num_conns in
    record { num_conns = all; workers = sum_conns 0 all }

-- The end of a connection forgets the slave; the sum stays until the next stats packet.
unfoldable pub on_close : ℕ → Workers → Workers
unfolding delete_conns
on_close id w = record w { num_conns = delete_conns id w.num_conns }
