-- ===== src/Slave/Client.antt =====
-- slave/client.go: the connections of a slave to the master. The bytes that a connection brings
-- until it ends or breaks are an argument, as is whether a dial succeeds.
pub mod Sent
pub mod Breaks
use xelis_pool.Common.{
  ℕ, zero, suc, ◌+◌, ◌%◌, ◌^◌, Bool, Option, none, some, List, [], ◌∷◌, ◌++◌, length, take, drop,
  ltb, if◌then◌else◌,
}
use xelis_pool.Common.Bytes.{Bytes, le_bytes}
use xelis_pool.Protocol.Frames.{Aead, nonce_size, overhead, frame_length}
use xelis_pool.Slave.Packets.{on_master_message}

-- The ban that a message logs, if it logs one.
abbrev pub Logged : Type 0
Logged = Option (Bytes × ℕ)

-- What a connection comes to, with what its messages log: it is closed and dialled again, or the
-- slave panics.
pub data Listened : Type 0 where
  lost crashed : List Logged → Listened
  starved : Listened

unfoldable pub heard : Logged → Listened → Listened
heard ban (lost bans) = lost (ban ∷ bans)
heard ban (crashed bans) = crashed (ban ∷ bans)
heard ban starved = starved

-- A read of a sealed part: its text and the rest of the stream, an error, or a panic.
pub data Part : Type 0 where
  opened : Bytes → Bytes → Part
  failed panicked : Part

-- What the slave has done when the last of the dials is over, with all that it logged.
pub data Client : Type 0 where
  dialling stopped : List Logged → Client

unfoldable pub after : List Logged → Client → Client
after bans (dialling rest) = dialling (bans ++ rest)
after bans (stopped rest) = stopped (bans ++ rest)

module _ (aead : Aead) where
  open aead use {seal, unseal}

  unfoldable pub encrypt : Bytes → Bytes → Bytes
  encrypt nonce msg = nonce ++ seal nonce msg

  -- Two writes, where there is a connection.
  unfoldable pub send_to_conn : Bool → Bytes → Bytes → Bytes → Bytes
  unfolding encrypt
  send_to_conn connected nonce nonce' msg =
      if connected
      then encrypt nonce (le_bytes 2 (length msg % 2 ^ 16)) ++ encrypt nonce' msg
      else []

  -- The outer `none` is the panic on a short text, the inner one the error.
  unfoldable pub decrypt : Bytes → Option (Option Bytes)
  decrypt msg =
      if ltb (length msg) nonce_size
      then none
      else some (unseal (take nonce_size msg) (drop nonce_size msg))

  unfoldable pub read_part : ℕ → Bytes → Part
  unfolding decrypt
  read_part n stream = if ltb (length stream) n then failed else elim (decrypt (take n stream)) [
    | none ↦ panicked
    | some none ↦ failed
    | some (some m) ↦ opened m (drop n stream)
  ]

  -- The inner loop, with `OnMessage` for each message. A round takes 42 bytes at least.
  unfoldable pub listen : ℕ → Bytes → Listened
  unfolding read_part heard frame_length
  listen zero stream = starved
  listen (suc fuel) stream = elim (read_part (2 + overhead) stream) [
    | failed ↦ lost []
    | panicked ↦ crashed []
    | opened len rest ↦ elim (frame_length len) [
      | none ↦ crashed []
      | some n ↦ elim (read_part (n + overhead) rest) [
        | failed ↦ lost []
        | panicked ↦ crashed []
        | opened msg rest' ↦ elim (on_master_message msg) [
          | none ↦ crashed []
          | some ban ↦ heard ban (listen fuel rest')
        ]
      ]
    ]
  ]

  -- The outer loop: one turn for each dial, of which `none` fails. A connection gets as many rounds
  -- as its stream has bytes, and one.
  unfoldable pub start_slave_client : List (Option Bytes) → Client
  unfolding listen after
  start_slave_client [] = dialling []
  start_slave_client (none ∷ dials) = start_slave_client dials
  start_slave_client (some stream ∷ dials) = elim (listen (suc (length stream)) stream) [
    | lost bans ↦ after bans (start_slave_client dials)
    | crashed bans ↦ stopped bans
    | starved ↦ stopped []
  ]
