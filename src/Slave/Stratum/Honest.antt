-- ===== src/Slave/Stratum/Honest.antt =====
-- An honest share of a Stratum miner: the job id of the last job, and a nonce.
use xelis_pool.Common.{
  if-false, ℕ, ◌+◌, ◌*◌, ◌%◌, ◌^◌, ◌≤◌, ◌≡◌, ◌≢◌, ◌∙◌, refl, sym, ap, Bool, true, false, some, List,
  [], ◌∷◌, length, arith, ◌==◌,
}
use xelis_pool.Common.Options.{◌>>=◌}
use xelis_pool.Common.Bytes.{
  Bytes, IsBytes, IsU64, codes, be_bytes, be_bytes-IsBytes, length-be_bytes, be_value-be_bytes,
}
use xelis_pool.Common.Text.{remove_port}
use xelis_pool.Common.Hex.{encode_hex, decode_hex-encode_hex}
use xelis_pool.RateLimit.{Limiter, can_do_action}
use xelis_pool.Pow.BlockMiner.{set_nonce, get_timestamp}
use xelis_pool.Pow.BlockMiner.Fields.{IsBlock}
use xelis_pool.Slave.Submit.{Job, Miner, accepted, blank_id, check_submit}
use xelis_pool.Slave.Jobs.{stratum_blob, new_job, send_stratum_job, send_to}
use xelis_pool.Slave.Jobs.Blobs.{stratum_blob_fields, stratum_share_fields}
use xelis_pool.Slave.Jobs.Honest.{find_job-add_job, share_accepted}
use xelis_pool.Slave.Packet.{Decoder, MemJob, JobToSend, Handled, checked, on_share}
use xelis_pool.Slave.Packet.Accepted.{handle_conn_packet-submit, check_submit-locked}
use xelis_pool.Slave.Stratum.{
  Turn, turn, RequestIn, Json, Message, response, done, running, share_block, submit_params,
  StratumConn, send_stratum, with_client, resend, on_submit, on_block, answered, handle_stratum,
}
use xelis_pool.Slave.Stratum.Shares.{round-submit}
use xelis_pool.Xatum.{get_next_diff}
use xelis_pool.Master.Float.{Float}

-- The parameters of a share, in hexadecimal.
abbrev pub share_params : Bytes → Bytes → ℕ → List Bytes
share_params user id n = user ∷ encode_hex id ∷ encode_hex (be_bytes 8 n) ∷ []

pub submit_params-share_params :
    (user id : Bytes) (n : ℕ)
    → IsBytes id
    → length id ≡ 16
    → submit_params (share_params user id n) ≡ some (id, be_bytes 8 n)
unfolding submit_params
submit_params-share_params user id n h size =
    rw (decode_hex-encode_hex id h, decode_hex-encode_hex (be_bytes 8 n) (be_bytes-IsBytes 8 n))
      (ground (arith, size, length-be_bytes 8 n))

-- The block of the share, from the jobs after a job was sent.
share_block-sent :
    (pool_nonce id blob : Bytes) (n next_diff block_diff : ℕ) (s : Miner)
    → length id ≡ 16
    → length pool_nonce ≡ 8
    → IsBlock blob
    → IsU64 n
    → share_block pool_nonce id
        (be_bytes 8 n)
        (send_to s (new_job next_diff block_diff (stratum_blob pool_nonce id blob))).jobs
      ≡ stratum_blob pool_nonce id (set_nonce n (stratum_blob pool_nonce id blob))
unfolding share_block
share_block-sent pool_nonce id blob n next_diff block_diff s hi hp hb hn =
    let (same, job, pool, time) = stratum_blob_fields id pool_nonce hi hp blob hb in
    let j = new_job next_diff block_diff (stratum_blob pool_nonce id blob) in
    let (i, found) = find_job-add_job id s.jobs j (unfold new_job in job) in
    rw (found, share_block) (rw (be_value-be_bytes 8 n hn) (unfold new_job in refl))

module _ (float : Float) (json : Json) (decoder : Decoder) (is_valid : Bytes → Bool)
    (pool_nonce : Bytes) (min_difficulty initial_difficulty : ℕ) (last : MemJob) (now now_ms : ℕ)
    (late : JobToSend) (seconds : float.F) (job_id : Bytes) where
  open float use {F, to_ℕ}

  -- The miner goes on, and is answered with true first.
  abbrev pub IsAccepted : ℕ → Turn float → Type 0
  IsAccepted id t =
      (t.status ≡ running) × (more : List Message) × (t.sent ≡ response id done ∷ more)

  -- JSON encodes and decodes a submit packet without a hash.
  abbrev pub RoundTrip : Type 0
  RoundTrip =
      (bm : Bytes)
      → (body : Bytes) × (json.submit_data bm ≡ some body)
        × (decoder.submit body ≡ some (record { block = bm; hash = [] }))

  answered-accepted :
      (id : ℕ) (c : StratumConn float) (r : Handled float) (j : Job) (bm : Bytes)
      → r.client.miner.locked ≡ false
      → r.reply ≡ checked (accepted j bm)
      → IsAccepted id (
          answered float json decoder is_valid pool_nonce min_difficulty initial_difficulty last now
            now_ms late seconds job_id id c r)
  answered-accepted id c r j bm free reply =
      let again =
        resend float json decoder is_valid pool_nonce min_difficulty initial_difficulty last now
          now_ms late seconds job_id (with_client float c r.client) in
      let eq : answered float json decoder is_valid pool_nonce min_difficulty initial_difficulty
            last now now_ms late seconds job_id id c r
          ≡ turn float again.0 r.limiter (response id done ∷ again.1) running =
        unfold answered in (if-false _ _ free ∙ rw reply refl) in
      rw eq (refl, again.1, refl)

  on_block-accepted :
      (id : ℕ) (bm bm' : Bytes) (j : Job) (l : Limiter) (c : StratumConn float)
      → RoundTrip
      → c.client.miner.locked ≡ false
      → (can_do_action (remove_port c.ip) 1 now l).1 ≡ true
      → (check_submit now_ms pool_nonce c.miner_id bm c.client.miner).1 ≡ accepted j bm'
      → IsAccepted id (
          on_block float json decoder is_valid pool_nonce min_difficulty initial_difficulty last now
            now_ms late seconds job_id id bm l c)
  unfolding on_block
  on_block-accepted id bm bm' j l c trip free allowed passes =
      let (body, encoded, decoded) = trip bm in
      rw (encoded, on_block)
        (rw
          (handle_conn_packet-submit float decoder is_valid min_difficulty last now now_ms
            (remove_port c.ip) pool_nonce c.miner_id 10 body (record { block = bm; hash = [] }) l
            c.client refl decoded allowed)
          (answered-accepted id c
            (on_share float decoder is_valid min_difficulty last now now_ms (remove_port c.ip)
              pool_nonce c.miner_id (record { block = bm; hash = [] })
              (can_do_action (remove_port c.ip) 1 now l).0 c.client)
            j bm'
            (unfold on_share in
              check_submit-locked now_ms pool_nonce c.miner_id bm bm' c.client.miner j passes
              ∙ free)
            (unfold on_share in ap checked passes)))

  on_submit-block :
      (id : ℕ) (params share_id nonce bm : Bytes) (l : Limiter) (c : StratumConn float)
      → (json.strings params >>= submit_params) ≡ some (share_id, nonce)
      → share_block pool_nonce share_id nonce c.client.miner.jobs ≡ bm
      → (get_timestamp bm == 0) ≡ false
      → on_submit float json decoder is_valid pool_nonce min_difficulty initial_difficulty last now
          now_ms late seconds job_id id params l c
        ≡ on_block float json decoder is_valid pool_nonce min_difficulty initial_difficulty last now
            now_ms late seconds job_id id bm l c
  unfolding on_submit
  on_submit-block id params share_id nonce bm l c e found time =
      rw (e, on_submit) (rw found (if-false _ _ time))

  sent_miner :
      (block_diff : ℕ) (blob : Bytes) (c : StratumConn float)
      → let c' =
          (send_stratum float min_difficulty seconds job_id pool_nonce block_diff blob c).0 in
        let next = to_ℕ (get_next_diff float min_difficulty seconds c.client.next_diff) in
        (c'.client.miner
          ≡ send_to c.client.miner (new_job next block_diff (stratum_blob pool_nonce job_id blob)))
        × (c'.ip ≡ c.ip)
        × (c'.miner_id ≡ c.miner_id)
  unfolding send_stratum send_stratum_job
  sent_miner block_diff blob c = (refl, refl, refl)

  -- An honest Stratum share is accepted: after a job was sent to a connection that does not hold its mutex, a
  -- `mining.submit` of the id of that job and any uint64 nonce is answered with true, first thing, and the connection
  -- goes on. The block of the job has 112 bytes and a timestamp that is not 0 and at most ten seconds after the
  -- clock, the job id 16 bytes and is not zero, the miner's id 16, the pool nonce 8; the connection's IP may submit;
  -- and JSON decodes what it encoded.
  pub handle_stratum-IsAccepted :
      (block_diff n : ℕ) (blob line user : Bytes) (req : RequestIn) (written : Bool) (l : Limiter)
      (c : StratumConn float)
      → RoundTrip
      → c.client.miner.locked ≡ false
      → (can_do_action (remove_port c.ip) 1 now l).1 ≡ true
      → json.request line ≡ some req
      → req.method ≡ codes "mining.submit"
      → json.strings req.params ≡ some (share_params user job_id n)
      → IsBytes job_id
      → length job_id ≡ 16
      → job_id ≢ blank_id
      → length c.miner_id ≡ 16
      → length pool_nonce ≡ 8
      → IsBlock blob
      → IsU64 n
      → (get_timestamp blob == 0) ≡ false
      → get_timestamp blob ≤ (now_ms + 10 * 1000) % 2 ^ 64
      → IsAccepted req.id (
          handle_stratum float json decoder is_valid pool_nonce min_difficulty initial_difficulty
            last now now_ms late seconds job_id
            (some line)
            written
            l
            (send_stratum float min_difficulty seconds job_id pool_nonce block_diff blob c).0)
  handle_stratum-IsAccepted block_diff n blob line user req written l c trip free allowed parsed
        method params bytes size fresh mine pool block hn time soon =
      let c' = (send_stratum float min_difficulty seconds job_id pool_nonce block_diff blob c).0 in
      let (sent, ip, id) = sent_miner block_diff blob c in
      let next = to_ℕ (get_next_diff float min_difficulty seconds c.client.next_diff) in
      let jb = stratum_blob pool_nonce job_id blob in
      let bm = stratum_blob pool_nonce job_id (set_nonce n jb) in
      let (same, bm_id, bm_pool, jb_id, bm_time, jb_time) =
        stratum_share_fields job_id pool_nonce size pool n blob block hn in
      let passes =
        share_accepted now_ms next block_diff pool_nonce c.miner_id jb bm c.client.miner mine same
          bm_pool (bm_id ∙ sym jb_id) (λ p. fresh (sym bm_id ∙ p)) (omega (arith, bm_time, jb_time))
          (omega (arith, bm_time, jb_time)) in
      let job = new_job next block_diff jb in
      let found =
        ap (λ m. share_block pool_nonce job_id (be_bytes 8 n) m.jobs) sent
        ∙ share_block-sent pool_nonce job_id blob n next block_diff c.client.miner size pool block
            hn in
      rw
        (round-submit float json decoder is_valid pool_nonce min_difficulty initial_difficulty last
            now now_ms late seconds job_id line req written l c' (ap (λ m. m.locked) sent ∙ free)
            parsed method
          ∙ on_submit-block req.id req.params job_id (be_bytes 8 n) bm l c'
              (ap (λ o. o >>= submit_params) params
                ∙ submit_params-share_params user job_id n bytes size)
              found (ap (λ t. t == 0) bm_time ∙ time))
        (on_block-accepted req.id bm _ _ l c' trip (ap (λ m. m.locked) sent ∙ free)
          (ap (λ i. (can_do_action (remove_port i) 1 now l).1) ip ∙ allowed)
          (ap (λ m. (check_submit now_ms pool_nonce c'.miner_id bm m).1) sent
            ∙ ap (λ i. (check_submit now_ms pool_nonce i bm (send_to c.client.miner job)).1) id
            ∙ passes))
