-- ===== src/Protocol/Stream.antt =====
-- The receiver of a stream gets the messages that were sent, in order, and always ends.
use xelis_pool.Common.{
  ℕ, zero, suc, ◌+◌, ◌%◌, ◌^◌, ◌≤◌, ◌<◌, ◌≡◌, ◌≢◌, refl, ap, ◌∙◌, sym, append-nil, none, some, List,
  [], ◌∷◌, ◌++◌, length, length-append, length-drop, take_prefix, drop_prefix, All, arith,
  append_assoc, Option-cases, inl, inr,
}
use xelis_pool.Common.Bytes.{Bytes, le_bytes, length-le_bytes}
use xelis_pool.Master.Messages.{Action, on_message}
use xelis_pool.Protocol.Frames.{
  Aead, Session, closed, panicked, starved, received, frame_length, nonce_size, overhead, encrypt,
  decrypt, send_to_conn, read_sealed, handle_slave,
}

pub frame_length-le_bytes : (n : ℕ) → n < 2 ^ 16 → frame_length (le_bytes 2 n) ≡ some n
unfolding frame_length le_bytes
frame_length-le_bytes n h = ground arith

-- A message with the nonces of its two parts.
pub record Sent : Type 0 where
  pub nonce : Bytes
  pub nonce' : Bytes
  pub msg : Bytes

-- The nonces have their size, and the length fits 16 bits.
pub record IsSent (x : Sent) : Type 0 where
  pub first : length x.nonce ≡ nonce_size
  pub second : length x.nonce' ≡ nonce_size
  pub fits : length x.msg < 2 ^ 16

-- `OnMessage` does not panic.
abbrev pub IsHandled : Sent → Type 0
IsHandled x = (action : Action) × (on_message x.msg ≡ some action)

unfoldable pub messages : List Sent → List Bytes
messages [] = []
messages (x ∷ xs) = x.msg ∷ messages xs

module _ (aead : Aead) where
  open aead use {seal, unseal, length_seal, unseal_seal}

  pub length-encrypt :
      (nonce msg : Bytes)
      → length nonce ≡ nonce_size
      → length (encrypt aead nonce msg) ≡ length msg + overhead
  unfolding encrypt
  length-encrypt nonce msg h =
      omega (arith, length-append nonce (seal nonce msg), length_seal nonce msg)

  decrypt-encrypt :
      (nonce msg : Bytes)
      → length nonce ≡ nonce_size
      → decrypt aead (encrypt aead nonce msg) ≡ some msg
  unfolding decrypt encrypt
  decrypt-encrypt nonce msg h = ground (
    arith,
    length-append nonce (seal nonce msg),
    take_prefix 24 nonce (seal nonce msg) h,
    drop_prefix 24 nonce (seal nonce msg) h,
    unseal_seal nonce msg,
  )

  read_sealed-encrypt :
      (nonce msg rest : Bytes) (n : ℕ)
      → length nonce ≡ nonce_size
      → length msg + overhead ≡ n
      → read_sealed aead n (encrypt aead nonce msg ++ rest) ≡ some (msg, rest)
  unfolding read_sealed
  read_sealed-encrypt nonce msg rest n h e = ground (
    arith,
    length-append (encrypt aead nonce msg) rest,
    length-encrypt nonce msg h,
    take_prefix n (encrypt aead nonce msg) rest,
    drop_prefix n (encrypt aead nonce msg) rest,
    decrypt-encrypt nonce msg h,
  )

  unfoldable pub stream_of : List Sent → Bytes
  stream_of [] = []
  stream_of (x ∷ xs) = send_to_conn aead x.nonce x.nonce' x.msg ++ stream_of xs

  mod_overhead : (n : ℕ) → n < 2 ^ 16 → n + overhead ≡ n % 2 ^ 16 + overhead
  mod_overhead n fits = omega arith

  frame_received :
      (x : Sent) (rest : Bytes) (fuel : ℕ)
      → IsSent x
      → IsHandled x
      → handle_slave aead (suc fuel) (send_to_conn aead x.nonce x.nonce' x.msg ++ rest)
        ≡ received x.msg (handle_slave aead fuel rest)
  unfolding handle_slave send_to_conn
  frame_received x rest fuel h (action, fine) =
      let size = le_bytes 2 (length x.msg % 2 ^ 16) in
      let head = encrypt aead x.nonce size in
      let body = encrypt aead x.nonce' x.msg in
      ground (
        arith,
        fine,
        append_assoc head body rest,
        read_sealed-encrypt x.nonce size (body ++ rest) 42 h.first,
        length-le_bytes 2 (length x.msg % 2 ^ 16),
        frame_length-le_bytes (length x.msg % 2 ^ 16) (omega arith),
        read_sealed-encrypt x.nonce' x.msg rest (length x.msg % 2 ^ 16 + overhead) h.second
            (mod_overhead (length x.msg) h.fits),
      )

  frame_panics :
      (x : Sent) (rest : Bytes) (fuel : ℕ)
      → IsSent x
      → on_message x.msg ≡ none
      → handle_slave aead (suc fuel) (send_to_conn aead x.nonce x.nonce' x.msg ++ rest)
        ≡ panicked []
  unfolding handle_slave send_to_conn
  frame_panics x rest fuel h broken =
      let size = le_bytes 2 (length x.msg % 2 ^ 16) in
      let head = encrypt aead x.nonce size in
      let body = encrypt aead x.nonce' x.msg in
      ground (
        arith,
        broken,
        append_assoc head body rest,
        read_sealed-encrypt x.nonce size (body ++ rest) 42 h.first,
        length-le_bytes 2 (length x.msg % 2 ^ 16),
        frame_length-le_bytes (length x.msg % 2 ^ 16) (omega arith),
        read_sealed-encrypt x.nonce' x.msg rest (length x.msg % 2 ^ 16 + overhead) h.second
            (mod_overhead (length x.msg) h.fits),
      )

  end_of_stream : (fuel : ℕ) → handle_slave aead (suc fuel) [] ≡ closed []
  unfolding handle_slave
  end_of_stream fuel = refl

  -- What is received before an end of the session.
  unfoldable all_received : List Sent → Session → Session
  all_received [] end = end
  all_received (x ∷ xs) end = received x.msg (all_received xs end)

  all_received-closed : (xs : List Sent) → all_received xs (closed []) ≡ closed (messages xs)
  unfolding all_received messages received
  all_received-closed [] = refl
  all_received-closed (x ∷ xs) = ap (received x.msg) (all_received-closed xs)

  all_received-panicked : (xs : List Sent) → all_received xs (panicked []) ≡ panicked (messages xs)
  unfolding all_received messages received
  all_received-panicked [] = refl
  all_received-panicked (x ∷ xs) = ap (received x.msg) (all_received-panicked xs)

  frames_received :
      (xs : List Sent) (rest : Bytes) (end : Session) (fuel : ℕ)
      → ((n : ℕ) → handle_slave aead (suc n) rest ≡ end)
      → All IsSent xs
      → All IsHandled xs
      → length xs < fuel
      → handle_slave aead fuel (stream_of xs ++ rest) ≡ all_received xs end
  unfolding stream_of all_received
  frames_received xs rest end zero ends h hs enough = absurd (omega arith)
  frames_received [] rest end (suc fuel) ends h hs enough = ends fuel
  frames_received (x ∷ xs) rest end (suc fuel) ends h hs enough =
      ap (handle_slave aead (suc fuel))
        (append_assoc (send_to_conn aead x.nonce x.nonce' x.msg) (stream_of xs) rest)
      ∙ frame_received x (stream_of xs ++ rest) fuel h.0 hs.0
      ∙ ap (received x.msg) (frames_received xs rest end fuel ends h.1 hs.1 (omega arith))

  length-stream_of : (xs : List Sent) → All IsSent xs → length xs ≤ length (stream_of xs)
  unfolding stream_of send_to_conn
  length-stream_of [] h = omega arith
  length-stream_of (x ∷ xs) h =
      let size = le_bytes 2 (length x.msg % 2 ^ 16) in
      let head = encrypt aead x.nonce size in
      let body = encrypt aead x.nonce' x.msg in
      omega (
        arith,
        length-append (head ++ body) (stream_of xs),
        length-append head body,
        length-encrypt x.nonce size h.0.first,
        length-stream_of xs h.1,
      )

  -- With as many rounds as the stream has bytes, and one, the receiving loop handles exactly the
  -- messages that were sent, in order, and then closes the connection; for messages below 2 ^ 16
  -- bytes on which `OnMessage` does not panic, and nonces of 24 bytes. Where a message on which it
  -- panics comes behind them, the loop handles those before it and panics, whatever follows.
  pub stream_received :
      (xs : List Sent)
      → All IsSent xs
      → All IsHandled xs
      → (handle_slave aead (suc (length (stream_of xs))) (stream_of xs) ≡ closed (messages xs))
        × ((bad : Sent) (rest : Bytes)
            → IsSent bad
            → on_message bad.msg ≡ none
            → let stream =
                stream_of xs ++ (send_to_conn aead bad.nonce bad.nonce' bad.msg ++ rest) in
              handle_slave aead (suc (length stream)) stream ≡ panicked (messages xs))
  stream_received xs h hs = (
    ap (handle_slave aead (suc (length (stream_of xs)))) (sym (append-nil (stream_of xs)))
        ∙ frames_received xs [] (closed []) _ end_of_stream h hs
            (omega (arith, length-stream_of xs h))
        ∙ all_received-closed xs,
    λ bad rest sent broken.
        let tail = send_to_conn aead bad.nonce bad.nonce' bad.msg ++ rest in
        frames_received xs tail (panicked []) _ (λ n. frame_panics bad rest n sent broken) h hs
          (omega (arith, length-stream_of xs h, length-append (stream_of xs) tail))
        ∙ all_received-panicked xs,
  )

  read_sealed_takes :
      (n : ℕ) (stream : Bytes) {m rest : Bytes}
      → read_sealed aead n stream ≡ some (m, rest)
      → length rest + n ≡ length stream
  unfolding read_sealed
  read_sealed_takes n stream e = ground (arith, length-drop n stream)

  received-ne-starved : (msg : Bytes) (s : Session) → s ≢ starved → received msg s ≢ starved
  unfolding received
  received-ne-starved msg (closed ms) h e = cc
  received-ne-starved msg (panicked ms) h e = cc
  received-ne-starved msg starved h e = h refl

  ends :
      (fuel : ℕ) (stream : Bytes) → length stream < fuel → handle_slave aead fuel stream ≢ starved
  unfolding handle_slave
  ends zero stream h = absurd (omega arith)
  ends (suc fuel) stream h = elim (Option-cases (read_sealed aead 42 stream)) [
    | inl e ↦ rw (e, handle_slave) (λ p. cc)
    | inr ((len, rest), e) ↦ elim (Option-cases (frame_length len)) [
      | inl f ↦ rw (e, handle_slave) (rw f (λ p. cc))
      | inr (n, f) ↦ elim (Option-cases (read_sealed aead (n + 40) rest)) [
        | inl g ↦ rw (e, handle_slave) (rw f (rw g (λ p. cc)))
        | inr ((msg, rest'), g) ↦
            let later =
              ends fuel rest'
                (omega (arith, read_sealed_takes 42 stream e, read_sealed_takes (n + 40) rest g)) in
            elim (Option-cases (on_message msg)) [
              | inl bad ↦ rw (e, handle_slave) (rw f (rw g (rw bad (λ p. cc))))
              | inr (action, fine) ↦
                  rw (e, handle_slave)
                    (rw f (
                      rw g
                        (rw fine (received-ne-starved msg (handle_slave aead fuel rest') later))))
            ]
      ]
    ]
  ]

  -- The receiving loop ends on every stream, well formed or not.
  pub handle_slave-ne-starved :
      (stream : Bytes) → handle_slave aead (suc (length stream)) stream ≢ starved
  handle_slave-ne-starved stream = ends _ stream (omega arith)
