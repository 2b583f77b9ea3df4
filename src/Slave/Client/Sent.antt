-- ===== src/Slave/Client/Sent.antt =====
-- The frames of the bans that a master sends, and how a slave reads one, whole or cut off.
use xelis_pool.Common.{
  ℕ, suc, ◌+◌, ◌-◌, ◌%◌, ◌^◌, ◌≤◌, ◌<◌, ◌≡◌, refl, ap, ◌∙◌, Bool-cases, inl, inr, some, [], ◌++◌,
  append_assoc, length, take, arith, ltb, length-append, length-take, take_prefix, drop_prefix,
  take-append_long,
}
use xelis_pool.Common.Bytes.{Bytes, IsU64, le_bytes, length-le_bytes}
use xelis_pool.Protocol.Frames.{Aead, nonce_size, overhead, frame_length}
use xelis_pool.Protocol.Frames
use xelis_pool.Protocol.Stream.{length-encrypt, frame_length-le_bytes}
use xelis_pool.Serializer.Uvarint.{groups}
use xelis_pool.Slave.Packets.{on_master_message}
use xelis_pool.Master.Messages.{serialize_ban}
use xelis_pool.Master.Understanding.{serialize_ban-layout, ban_back}
use xelis_pool.Slave.Client.{Logged, lost, heard, opened, failed, decrypt, read_part, listen}

-- A ban that the master sends, with the nonces of the two parts of its frame.
pub record Ban : Type 0 where
  pub ip : Bytes
  pub ends : ℕ
  pub nonce : Bytes
  pub nonce' : Bytes

abbrev pub message_of : Ban → Bytes
message_of x = serialize_ban x.ip x.ends

-- The nonces have their size, the end is a uint64, and the length of the message fits 16 bits.
pub record IsSent (x : Ban) : Type 0 where
  pub first : length x.nonce ≡ nonce_size
  pub second : length x.nonce' ≡ nonce_size
  pub end : IsU64 x.ends
  pub fits : length (message_of x) < 2 ^ 16

abbrev pub ban_of : Ban → Logged
ban_of x = some (x.ip, x.ends)

abbrev pub frame_size : Ban → ℕ
frame_size x = length (message_of x) + 82

length_ban : (x : Ban) → length x.ip ≤ length (message_of x)
length_ban x = rw serialize_ban-layout (
    omega (
      arith,
      length-append (groups 9 (length x.ip)) (x.ip ++ le_bytes 8 x.ends),
      length-append x.ip (le_bytes 8 x.ends),
    ))

understood : (x : Ban) → IsSent x → on_master_message (message_of x) ≡ some (ban_of x)
understood x h = ban_back x.ip x.ends (omega (arith, h.fits, length_ban x)) h.end

module _ (aead : Aead) where
  open aead use {seal, unseal, length_seal, unseal_seal}

  abbrev pub frame : Ban → Bytes
  frame x = Frames.send_to_conn aead x.nonce x.nonce' (message_of x)

  decrypt-encrypt :
      (nonce msg : Bytes)
      → length nonce ≡ nonce_size
      → decrypt aead (Frames.encrypt aead nonce msg) ≡ some (some msg)
  unfolding decrypt Frames.encrypt
  decrypt-encrypt nonce msg h = ground (
    arith,
    length-append nonce (seal nonce msg),
    take_prefix 24 nonce (seal nonce msg) h,
    drop_prefix 24 nonce (seal nonce msg) h,
    unseal_seal nonce msg,
  )

  read_part-encrypt :
      (nonce msg rest : Bytes) (n : ℕ)
      → length nonce ≡ nonce_size
      → length msg + overhead ≡ n
      → read_part aead n (Frames.encrypt aead nonce msg ++ rest) ≡ opened msg rest
  unfolding read_part
  read_part-encrypt nonce msg rest n h e = ground (
    arith,
    length-append (Frames.encrypt aead nonce msg) rest,
    length-encrypt aead nonce msg h,
    take_prefix n (Frames.encrypt aead nonce msg) rest,
    drop_prefix n (Frames.encrypt aead nonce msg) rest,
    decrypt-encrypt nonce msg h,
  )

  pub read_part_short :
      (n : ℕ) (stream : Bytes) → length stream < n → read_part aead n stream ≡ failed
  unfolding read_part
  read_part_short n stream h = ground arith

  pub listen_lost :
      (stream : Bytes) (fuel : ℕ)
      → read_part aead 42 stream ≡ failed
      → listen aead (suc fuel) stream ≡ lost []
  unfolding listen
  listen_lost stream fuel e = rw (e, listen) refl

  listen_lost_inside :
      {len : Bytes} (stream rest : Bytes) (n fuel : ℕ)
      → read_part aead 42 stream ≡ opened len rest
      → frame_length len ≡ some n
      → read_part aead (n + 40) rest ≡ failed
      → listen aead (suc fuel) stream ≡ lost []
  unfolding listen
  listen_lost_inside stream rest n fuel e f g = rw (e, listen) (rw f (rw g refl))

  module _ (x : Ban) (h : IsSent x) where
    abbrev size : Bytes
    size = le_bytes 2 (length (message_of x) % 2 ^ 16)

    abbrev head : Bytes
    head = Frames.encrypt aead x.nonce size

    abbrev body : Bytes
    body = Frames.encrypt aead x.nonce' (message_of x)

    length-head : length head ≡ 42
    length-head = omega (
      arith,
      length-encrypt aead x.nonce size h.first,
      length-le_bytes 2 (length (message_of x) % 2 ^ 16),
    )

    length-body : length body ≡ length (message_of x) + 40
    length-body = length-encrypt aead x.nonce' (message_of x) h.second

    pub length-frame : length (frame x) ≡ frame_size x
    unfolding Frames.send_to_conn
    length-frame = omega (arith, length-append head body, length-head, length-body)

    head_read :
        (rest : Bytes)
        → (read_part aead 42 (head ++ rest) ≡ opened size rest)
          × (frame_length size ≡ some (length (message_of x)))
    head_read rest = (
      read_part-encrypt x.nonce size rest 42 h.first
          (omega (arith, length-le_bytes 2 (length (message_of x) % 2 ^ 16))),
      frame_length-le_bytes (length (message_of x) % 2 ^ 16) (omega arith)
          ∙ ap some (omega (arith, h.fits)),
    )

    pub listen-frame :
        (rest : Bytes) (fuel : ℕ)
        → listen aead (suc fuel) (frame x ++ rest) ≡ heard (ban_of x) (listen aead fuel rest)
    unfolding listen Frames.send_to_conn
    listen-frame rest fuel = rw (append_assoc head body rest) (
        ground (
          arith,
          head_read (body ++ rest),
          read_part-encrypt x.nonce' (message_of x) rest (length (message_of x) + 40) h.second refl,
          understood x h,
        ))

    -- A frame that breaks off is not heard.
    pub frame_cut :
        (n : ℕ) (rest : Bytes) (fuel : ℕ)
        → n < frame_size x
        → listen aead (suc fuel) (take n (frame x ++ rest)) ≡ lost []
    unfolding listen Frames.send_to_conn
    frame_cut n rest fuel short = elim (Bool-cases (ltb n 42)) [
      | inl tiny ↦ listen_lost (take n (frame x ++ rest)) fuel (
          read_part_short 42 (take n (frame x ++ rest))
            (ground (arith, length-take n (frame x ++ rest))))
      | inr more ↦
          let left = take (n - length head) (body ++ rest) in
          rw (append_assoc head body rest) (
            rw (take-append_long n head (body ++ rest) (ground (arith, length-head))) (
              listen_lost_inside (head ++ left) left (length (message_of x)) fuel (head_read left).0
                (head_read left).1
                (read_part_short (length (message_of x) + 40) left
                  (ground (arith, length-head, length-take (n - length head) (body ++ rest))))))
    ]
