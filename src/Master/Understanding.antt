-- ===== src/Master/Understanding.antt =====
-- The master understands each message of a slave, and a slave the master's.
use xelis_pool.Common.{
  ℕ, ◌+◌, ◌%◌, ◌^◌, ◌<◌, ◌≡◌, some, [], ◌∷◌, ◌++◌, length, append_assoc, append-nil, arith,
}
use xelis_pool.Common.Bytes.{Bytes, IsU64, le_bytes}
use xelis_pool.Common.Hex.{encode_hex}
use xelis_pool.Serializer.Uvarint.{groups}
use xelis_pool.Serializer.RoundTrip.{
  read_uint8-append, read_string-append, read_uvarint-append, read_fixed_byte_array-append,
  read_uvarint_last, read_uint64_last,
}
use xelis_pool.Slave.Packets.{
  send_cached_share, send_block_found, send_stats, send_ban, on_master_message,
}
use xelis_pool.Master.Messages.{
  share_packet, block_packet, stats_packet, ban_packet, share_found, block_found, stats, reply,
  serialize_ban, on_message,
}

module _ (count : ℕ) (wallet : Bytes) (diff : ℕ) where
  abbrev share_layout : Bytes
  share_layout = 0 ∷ (groups 9 count ++ (groups 9 (length wallet) ++ (wallet ++ groups 9 diff)))

  send_cached_share-layout : send_cached_share count wallet diff ≡ share_layout
  unfolding send_cached_share
  send_cached_share-layout = simp append_assoc

  -- A share message becomes the share that was sent: the wallet, the difficulty and the number of
  -- shares; for a number below 2 ^ 32, a wallet shorter than 2 ^ 63 and a uint64 difficulty.
  pub on_message-send_cached_share :
      count < 2 ^ 32
      → length wallet < 2 ^ 63
      → IsU64 diff
      → on_message (send_cached_share count wallet diff) ≡ some (share_found wallet diff count)
  unfolding on_message share_packet
  on_message-send_cached_share hc hw hd = rw send_cached_share-layout (
      ground (
        arith,
        read_uint8-append 0
            (groups 9 count ++ (groups 9 (length wallet) ++ (wallet ++ groups 9 diff))),
        read_uvarint-append count (groups 9 (length wallet) ++ (wallet ++ groups 9 diff)),
        read_string-append wallet (groups 9 diff) hw,
        read_uvarint_last diff hd,
      ))

-- The message of a hash of 32 bytes becomes the hash in hexadecimal.
pub on_message-send_block_found :
    (hash msg : Bytes)
    → length hash ≡ 32
    → send_block_found hash ≡ some msg
    → on_message msg ≡ some (block_found (encode_hex hash))
unfolding send_block_found on_message block_packet
on_message-send_block_found hash msg h e =
    ground
      (arith, append-nil hash, read_uint8-append 1 hash, read_fixed_byte_array-append 32 hash [] h)

-- A stats message becomes the sum of the two counts, where that is below 2 ^ 32.
pub on_message-send_stats :
    (miners getwork : ℕ)
    → miners + getwork < 2 ^ 32
    → on_message (send_stats miners getwork) ≡ some (stats (miners + getwork))
unfolding send_stats on_message stats_packet
on_message-send_stats miners getwork h = ground (
  arith,
  read_uint8-append 2 (groups 9 ((miners + getwork) % 2 ^ 64)),
  read_uvarint_last ((miners + getwork) % 2 ^ 64),
)

abbrev pub ban_layout : ℕ → Bytes → ℕ → Bytes
ban_layout kind ip ends = kind ∷ (groups 9 (length ip) ++ (ip ++ le_bytes 8 ends))

send_ban-layout : (ip : Bytes) (ends : ℕ) → IsU64 ends → send_ban ip ends ≡ ban_layout 4 ip ends
unfolding send_ban
send_ban-layout ip ends h =
    let same : ends % 2 ^ 64 ≡ ends = omega arith in rw same (simp append_assoc)

pub serialize_ban-layout : (ip : Bytes) (ends : ℕ) → serialize_ban ip ends ≡ ban_layout 0 ip ends
unfolding serialize_ban
serialize_ban-layout ip ends = simp append_assoc

module _ (ip : Bytes) (ends : ℕ) (hi : length ip < 2 ^ 63) (he : IsU64 ends) where
  ban_sent : on_message (send_ban ip ends) ≡ some (reply (serialize_ban ip ends))
  unfolding on_message ban_packet
  ban_sent = rw (send_ban-layout ip ends he) (
      ground (
        arith,
        read_uint8-append 4 (groups 9 (length ip) ++ (ip ++ le_bytes 8 ends)),
        read_string-append ip (le_bytes 8 ends) hi,
        read_uint64_last ends he,
      ))

  pub ban_back : on_master_message (serialize_ban ip ends) ≡ some (some (ip, ends))
  unfolding on_master_message
  ban_back = rw serialize_ban-layout (
      ground (
        arith,
        read_uint8-append 0 (groups 9 (length ip) ++ (ip ++ le_bytes 8 ends)),
        read_string-append ip (le_bytes 8 ends) hi,
        read_uint64_last ends he,
      ))

  -- A ban message comes back as a message that the slave reads as the same ban; for an address
  -- shorter than 2 ^ 63 and a uint64 end.
  pub ban_comes_back :
      (on_message (send_ban ip ends) ≡ some (reply (serialize_ban ip ends)))
      × (on_master_message (serialize_ban ip ends) ≡ some (some (ip, ends)))
  ban_comes_back = (ban_sent, ban_back)
