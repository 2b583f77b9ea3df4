-- ===== src/Slave/Getwork/Honest.antt =====
-- An honest share of a getwork miner is accepted.
use xelis_pool.Common.{
  if-false, ℕ, ◌+◌, ◌*◌, ◌%◌, ◌^◌, ◌≤◌, ◌≡◌, ◌≢◌, ◌∙◌, refl, ap, Bool, true, false, ◌&&◌, ◌||◌, not,
  some, List, [], ◌∷◌, length, arith, ◌==◌, if◌then◌else◌,
}
use xelis_pool.Common.Bytes.{Bytes, IsBytes, IsU64}
use xelis_pool.Common.Text.{remove_port}
use xelis_pool.Common.Hex.{encode_hex, decode_hex-encode_hex}
use xelis_pool.RateLimit.{Limiter, can_do_action}
use xelis_pool.Pow.BlockMiner.{set_extra_nonce, get_timestamp}
use xelis_pool.Pow.BlockMiner.Fields.{IsBlock}
use xelis_pool.Pow.Algorithm.{convert_algorithm_to_getwork}
use xelis_pool.Slave.Submit.{Job, Miner, accepted, blank_id, check_submit}
use xelis_pool.Slave.Jobs.{gen_extra_nonce, send_job, send_job_getwork}
use xelis_pool.Slave.Jobs.Blobs.{mined, mined_fields, xatum_blob_fields}
use xelis_pool.Slave.Jobs.Honest.{send_job_accepted}
use xelis_pool.Slave.Packet.{Decoder, MemJob, JobToSend, Handled, Reply, kicks, checked, on_share}
use xelis_pool.Slave.Packet.Accepted.{handle_conn_packet-submit, check_submit-locked}
use xelis_pool.Slave.Getwork.{
  Field, text, Json, Message, block_accepted, block_rejected, accepts, running, miner_work,
  miner_blob, GetworkConn, Turn, turn, with_miner, send_getwork, resend, answered, on_blob,
  ws_message,
}
use xelis_pool.Xatum.{get_next_diff}
use xelis_pool.Master.Float.{Float}

miner_blob-encode_hex :
    (bm : Bytes) → IsBytes bm → IsBlock bm → miner_blob (encode_hex bm) ≡ some bm
unfolding miner_blob
miner_blob-encode_hex bm bytes size =
    rw (decode_hex-encode_hex bm bytes, miner_blob) (ground (arith, size))

send_job_getwork-known :
    (next : ℕ) (random pool_nonce : Bytes) (diff : ℕ) (blob algorithm name : Bytes) (s : Miner)
    → convert_algorithm_to_getwork algorithm ≡ some name
    → let (s', job) = send_job next random pool_nonce diff blob s in
      send_job_getwork next random pool_nonce diff blob algorithm s
      ≡ (s', some (record { difficulty = job.diff; miner_work = job.blob; algorithm = name }))
unfolding send_job_getwork
send_job_getwork-known next random pool_nonce diff blob algorithm name s e =
    rw (e, send_job_getwork) refl

mined-IsBlock :
    (next diff t n : ℕ) (random pool_nonce blob : Bytes) (s : Miner)
    → length random ≡ 16
    → length pool_nonce ≡ 8
    → IsBlock blob
    → IsU64 t
    → IsU64 n
    → IsBlock (mined t n (send_job next random pool_nonce diff blob s).1.blob)
unfolding send_job
mined-IsBlock next diff t n random pool_nonce blob s hr hp hb ht hn =
    let jb = set_extra_nonce (gen_extra_nonce random pool_nonce) blob in
    let (size, id, pool, time) = xatum_blob_fields random pool_nonce hr hp blob hb jb refl in
    (mined_fields t n jb size ht hn).0.block

module _ (float : Float) (min_difficulty : ℕ) (pool_nonce : Bytes) (json : Json) (decoder : Decoder)
    (is_valid : Bytes → Bool) (last : MemJob) (first_algorithm : Bytes) (now now_ms : ℕ)
    (late : JobToSend) (seconds : float.F) (random : Bytes) where
  open float use {F, to_ℕ}

  -- The miner is told first that its block was accepted, and the handler goes on.
  abbrev pub IsAccepted : Turn float → Type 0
  IsAccepted t = (t.status ≡ running) × (more : List Message) × (t.sent ≡ block_accepted ∷ more)

  -- JSON encodes and decodes a submit packet without a hash.
  abbrev pub RoundTrip : Type 0
  RoundTrip =
      (bm : Bytes)
      → (body : Bytes) × (json.submit_data bm ≡ some body)
        × (decoder.submit body ≡ some (record { block = bm; hash = [] }))

  answered-accepted :
      (written : Bool) (c : GetworkConn float) (r : Handled float) (j : Job) (bm : Bytes)
      → r.client.miner.locked ≡ false
      → r.reply ≡ checked (accepted j bm)
      → IsAccepted (
          answered float min_difficulty pool_nonce json decoder is_valid last first_algorithm now
            now_ms late seconds random written c r)
  answered-accepted written c r j bm free reply =
      let kept : GetworkConn float = record c {
        client = r.client;
        connected = c.connected && not (kicks r.reply || not written);
      } in
      let again =
        resend float min_difficulty pool_nonce json decoder is_valid last first_algorithm now now_ms
          late seconds random kept in
      let eq : answered float min_difficulty pool_nonce json decoder is_valid last first_algorithm
            now now_ms late seconds random written c r
          ≡ turn float again.0 r.limiter (block_accepted ∷ again.1) running =
        unfold answered in
        (if-false _ _ free
          ∙ ap
              (λ (p : Reply).
                turn float again.0 r.limiter
                  ((if accepts float min_difficulty pool_nonce json decoder is_valid last
                        first_algorithm now now_ms late p
                      then block_accepted
                      else block_rejected)
                    ∷ again.1)
                  running)
              reply) in
      rw eq (refl, again.1, refl)

  on_blob-accepted :
      (received : ℕ) (written : Bool) (bm bm' : Bytes) (j : Job) (l : Limiter)
      (c : GetworkConn float)
      → RoundTrip
      → (received == 1) ≡ false
      → c.client.miner.locked ≡ false
      → (can_do_action (remove_port c.ip) 1 now l).1 ≡ true
      → (check_submit now_ms pool_nonce blank_id bm c.client.miner).1 ≡ accepted j bm'
      → IsAccepted (
          on_blob float min_difficulty pool_nonce json decoder is_valid last first_algorithm now
            now_ms late seconds random received written bm l c)
  unfolding on_blob
  on_blob-accepted received written bm bm' j l c trip later free allowed passes =
      let (body, encoded, decoded) = trip bm in
      rw (encoded, on_blob)
        (rw
          (handle_conn_packet-submit float decoder is_valid min_difficulty last now now_ms
            (remove_port c.ip) pool_nonce blank_id received body (record { block = bm; hash = [] })
            l c.client later decoded allowed)
          (answered-accepted written c
            (on_share float decoder is_valid min_difficulty last now now_ms (remove_port c.ip)
              pool_nonce blank_id (record { block = bm; hash = [] })
              (can_do_action (remove_port c.ip) 1 now l).0 c.client)
            j bm'
            (unfold on_share in
              check_submit-locked now_ms pool_nonce blank_id bm bm' c.client.miner j passes ∙ free)
            (unfold on_share in ap checked passes)))

  -- The difficulty of the next job.
  abbrev pub next_of : GetworkConn float → ℕ
  next_of c = to_ℕ (get_next_diff float min_difficulty seconds c.client.next_diff)

  sent_conn :
      (block_diff : ℕ) (blob algorithm name : Bytes) (c : GetworkConn float)
      → convert_algorithm_to_getwork algorithm ≡ some name
      → (send_getwork float min_difficulty pool_nonce seconds random block_diff blob algorithm c).0
        ≡ with_miner float c
            (send_job (next_of c) random pool_nonce block_diff blob c.client.miner).0
  unfolding send_getwork
  sent_conn block_diff blob algorithm name c e =
      let k =
        send_job_getwork-known (next_of c) random pool_nonce block_diff blob algorithm name
          c.client.miner e in
      rw (k, send_getwork) (ap (λ r. with_miner float c r.0) k)

  send_job-locked :
      (next block_diff : ℕ) (blob : Bytes) (c : GetworkConn float)
      → (send_job next random pool_nonce block_diff blob c.client.miner).0.locked
        ≡ c.client.miner.locked
  unfolding send_job
  send_job-locked next block_diff blob c = refl

  -- An honest getwork share is accepted: after a job of a known algorithm was sent to a connection that
  -- does not hold its mutex, a message with the block of that job, its timestamp and its nonce filled in, is
  -- answered with "block_accepted", first thing, and the handler goes on. The block of the job has 112 bytes, the new
  -- timestamp lies between the job's and ten seconds after the clock, and both values are uint64; the random id has 16
  -- bytes and is not zero, the pool nonce has 8; the connection's IP may submit; the message is not
  -- the first that is counted; and JSON decodes what it encoded.
  pub ws_message-IsAccepted :
      (received block_diff t n : ℕ) (blob algorithm name message : Bytes) (template : Field)
      (written : Bool) (l : Limiter) (c : GetworkConn float)
      → let bm =
          mined t n
            (send_job (next_of c) random pool_nonce block_diff blob c.client.miner).1.blob in
        RoundTrip
        → (received == 1) ≡ false
        → c.client.miner.locked ≡ false
        → (can_do_action (remove_port c.ip) 1 now l).1 ≡ true
        → convert_algorithm_to_getwork algorithm ≡ some name
        → json.fields message ≡ (text (encode_hex bm), template)
        → IsBytes bm
        → length random ≡ 16
        → length pool_nonce ≡ 8
        → IsBlock blob
        → random ≢ blank_id
        → IsU64 t
        → IsU64 n
        → get_timestamp blob ≤ t
        → t ≤ (now_ms + 10 * 1000) % 2 ^ 64
        → IsAccepted (
            ws_message float min_difficulty pool_nonce json decoder is_valid last first_algorithm
              now now_ms late seconds random received
              (some message)
              written
              l
              (send_getwork float min_difficulty pool_nonce seconds random block_diff blob algorithm
                c).0)
  unfolding ws_message miner_work
  ws_message-IsAccepted received block_diff t n blob algorithm name message template written l c
        trip later free allowed known fields bytes size pool block fresh ht hn past soon =
      let bm =
        mined t n (send_job (next_of c) random pool_nonce block_diff blob c.client.miner).1.blob in
      let (job, passes, diff, chain) =
        send_job_accepted now_ms (next_of c) block_diff t n random pool_nonce blob c.client.miner
          size pool block fresh ht hn past soon in
      rw (sent_conn block_diff blob algorithm name c known) (
        rw (fields, ws_message)
          (rw
            (
              miner_blob-encode_hex bm bytes (
                  mined-IsBlock (next_of c) block_diff t n random pool_nonce blob c.client.miner
                    size pool block ht hn),
              ws_message,
            )
            (on_blob-accepted received written bm bm job l
              (with_miner float c
                (send_job (next_of c) random pool_nonce block_diff blob c.client.miner).0)
              trip later (send_job-locked (next_of c) block_diff blob c ∙ free) allowed passes)))
