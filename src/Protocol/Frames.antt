-- ===== src/Protocol/Frames.antt =====
-- Encryption, frames, and the receiving loop.
use xelis_pool.Common.{
  ℕ, zero, suc, ◌+◌, ◌*◌, ◌%◌, ◌^◌, ◌≡◌, Option, none, some, List, [], ◌∷◌, ◌++◌, length, take,
  drop, ltb, if◌then◌else◌,
}
use xelis_pool.Common.Bytes.{Bytes, le_bytes}
use xelis_pool.Master.Messages.{on_message}

-- XChaCha20-Poly1305 under the master password: a nonce of 24 bytes and a tag of 16.
pub record Aead : Type 0 where
  pub seal : Bytes → Bytes → Bytes
  pub unseal : Bytes → Bytes → Option Bytes
  pub length_seal : (nonce msg : Bytes) → length (seal nonce msg) ≡ length msg + 16
  pub unseal_seal : (nonce msg : Bytes) → unseal nonce (seal nonce msg) ≡ some msg

abbrev pub nonce_size : ℕ
nonce_size = 24

abbrev pub overhead : ℕ
overhead = 40

-- Why a session ended, with the messages that it handled.
pub data Session : Type 0 where
  closed : List Bytes → Session
  panicked : List Bytes → Session
  starved : Session

unfoldable pub received : Bytes → Session → Session
received msg (closed msgs) = closed (msg ∷ msgs)
received msg (panicked msgs) = panicked (msg ∷ msgs)
received msg starved = starved

-- `int(lenBuf[0]) | (int(lenBuf[1]) << 8)`; `none` is the panic of an index out of range.
unfoldable pub frame_length : Bytes → Option ℕ
frame_length (b0 ∷ b1 ∷ bs) = some (b0 + b1 * 256)
frame_length bs = none

module _ (aead : Aead) where
  open aead use {seal, unseal}

  -- The random nonce is an argument.
  unfoldable pub encrypt : Bytes → Bytes → Bytes
  encrypt nonce msg = nonce ++ seal nonce msg

  -- `none` is the error.
  unfoldable pub decrypt : Bytes → Option Bytes
  decrypt msg =
      if ltb (length msg) nonce_size
      then none
      else unseal (take nonce_size msg) (drop nonce_size msg)

  -- Two writes: the length in 16 bits, and the data.
  unfoldable pub send_to_conn : Bytes → Bytes → Bytes → Bytes
  unfolding encrypt
  send_to_conn nonce nonce' msg =
      encrypt nonce (le_bytes 2 (length msg % 2 ^ 16)) ++ encrypt nonce' msg

  -- `io.ReadFull` of `n` bytes, then `Decrypt`: the plain text and the rest of the stream.
  unfoldable pub read_sealed : ℕ → Bytes → Option (Bytes × Bytes)
  unfolding decrypt
  read_sealed n stream =
      if ltb (length stream) n
      then none
      else elim (decrypt (take n stream)) [ none ↦ none | some m ↦ some (m, drop n stream) ]

  -- The loop of `HandleSlave`; each message goes to `OnMessage`, which may panic. A round takes 42
  -- bytes at least.
  unfoldable pub handle_slave : ℕ → Bytes → Session
  unfolding read_sealed received frame_length
  handle_slave zero stream = starved
  handle_slave (suc fuel) stream = elim (read_sealed (2 + overhead) stream) [
    | none ↦ closed []
    | some (len, rest) ↦ elim (frame_length len) [
      | none ↦ panicked []
      | some n ↦ elim (read_sealed (n + overhead) rest) [
        | none ↦ closed []
        | some (msg, rest') ↦
            let later = handle_slave fuel rest' in
            elim (on_message msg) [ none ↦ panicked [] | some action ↦ received msg later ]
      ]
    ]
  ]
