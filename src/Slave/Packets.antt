-- ===== src/Slave/Packets.antt =====
-- slave/client.go: the messages of a slave, before framing, and the handler of the master's.
use xelis_pool.Common.{ℕ, ◌+◌, ◌%◌, ◌^◌, Option, none, some, [], ◌∷◌, ◌==◌, if◌then◌else◌}
use xelis_pool.Common.Bytes.{Bytes}
use xelis_pool.Serializer.Writer.{
  Serializer, add_uint64, add_uvarint, add_string, add_fixed_byte_array,
}
use xelis_pool.Serializer.Reader.{
  Deserializer, Reader, ◌>>=◌, pure, read_uint8, read_uint64, read_string,
}

-- `serializer.Serializer{Data: []byte{kind}}`
abbrev pub packet : ℕ → Serializer
packet kind = record { bytes = kind ∷ [] }

unfoldable pub send_cached_share : ℕ → Bytes → ℕ → Bytes
unfolding add_uvarint add_string
send_cached_share count wallet diff =
    (add_uvarint (add_string (add_uvarint (packet 0) count) wallet) diff).bytes

-- `none` is a panic; `hash` is an array of 32 bytes, so there is none.
unfoldable pub send_block_found : Bytes → Option Bytes
unfolding add_fixed_byte_array
send_block_found hash = elim (add_fixed_byte_array (packet 1) hash 32) [
  | none ↦ none
  | some s ↦ some s.bytes
]

unfoldable pub send_stats : ℕ → ℕ → Bytes
unfolding add_uvarint
send_stats nr_miners nr_getwork_miners =
    (add_uvarint (packet 2) ((nr_miners + nr_getwork_miners) % 2 ^ 64)).bytes

unfoldable pub send_ban : Bytes → ℕ → Bytes
unfolding add_string add_uint64
send_ban ip ends = (add_uint64 (add_string (packet 4) ip) (ends % 2 ^ 64)).bytes

-- What the slave makes of a message of the master: the ban that it logs, or nothing.
unfoldable pub master_packet : ℕ → Reader (Option (Bytes × ℕ))
master_packet kind =
    if kind == 0
    then (do ip ← read_string; ends ← read_uint64; pure (some (ip, ends)))
    else pure none

-- `if d.Error != nil { return }`; the outer `none` is a panic.
unfoldable pub logged : Option (Option (Bytes × ℕ) × Deserializer) → Option (Option (Bytes × ℕ))
logged none = none
logged (some (ban, d)) = elim d.error [ none ↦ some ban | some e ↦ some none ]

unfoldable pub on_master_message : Bytes → Option (Option (Bytes × ℕ))
unfolding master_packet logged
on_master_message b =
    logged ((do kind ← read_uint8; master_packet kind) (record { bytes = b; error = none }))
