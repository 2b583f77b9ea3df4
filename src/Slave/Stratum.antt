-- ===== src/Slave/Stratum.antt =====
-- The Stratum server: `handleStratumConn` of cmd/slave/stratum.go, one request at a time.
pub mod Server
pub mod Shares
pub mod Honest
pub mod Reach
pub mod Race
use xelis_pool.Common.{
  ℕ, ◌+◌, ◌%◌, ◌^◌, Bool, true, false, ◌&&◌, ◌||◌, not, Option, none, some, List, [], ◌∷◌, ◌++◌,
  length, replicate, ltb, ◌==◌, if◌then◌else◌,
}
use xelis_pool.Common.Bytes.{Bytes, codes, be_value, ◌=?◌}
use xelis_pool.Common.Text.{remove_port}
use xelis_pool.Common.Hex.{decode_hex, encode_hex}
use xelis_pool.Common.Options.{◌>>=◌}
use xelis_pool.RateLimit.{Limiter}
use xelis_pool.Pow.BlockMiner.{
  blockminer_length, set_nonce, set_extra_nonce, set_pool_nonce, set_job_id, get_timestamp,
  get_job_id, get_extra_nonce, get_publickey,
}
use xelis_pool.Slave.Submit.{Job, Miner, find_job}
use xelis_pool.Slave.Jobs.{authorized_jobs, Request, send_stratum_job, stratum_blob}
use xelis_pool.Slave.Packet.{
  Decoder, Reply, checked, kicks, answer_accepts, MemJob, JobToSend, parse_addr, Client, Handled,
  handle_conn_packet,
}
use xelis_pool.Master.Float.{Float}
use xelis_pool.Xatum.{get_next_diff}

-- `stratum.RequestIn`; the parameters are still JSON.
pub record RequestIn : Type 0 where
  pub id : ℕ
  pub method : Bytes
  pub params : Bytes

-- JSON of the standard library: the request, a list of strings, and the submit packet of a block
-- behind its `~`. `none` is an error.
pub record Json : Type 0 where
  pub request : Bytes → Option RequestIn
  pub strings : Bytes → Option (List Bytes)
  pub submit_data : Bytes → Option Bytes

-- The result of `stratum.ResponseOut`: the extra nonce and the public key, true, or false with the
-- code of the error, 1 standing for -1.
pub data Result : Type 0 where
  subscribed : Bytes → Bytes → Result
  done : Result
  failed : ℕ → Result

pub data Message : Type 0 where
  response : ℕ → Result → Message
  request : ℕ → Request → Message
  ping : ℕ → Message

-- Whether the connection waits for its next request, is done with, or waits for its own mutex.
pub data Status : Type 0 where
  running returned blocked : Status

-- The block of the last job with the id, with the nonce, or zeros.
unfoldable pub share_block : Bytes → Bytes → Bytes → List Job → Bytes
unfolding stratum_blob find_job
share_block pool_nonce id nonce jobs = elim (find_job id jobs) [
  | none ↦ replicate blockminer_length 0
  | some (i, j) ↦ stratum_blob pool_nonce id (set_nonce (be_value nonce) j.block_miner)
]

-- The id of the job and the nonce of a share.
unfoldable pub submit_params : List Bytes → Option (Bytes × Bytes)
submit_params [] = none
submit_params (user ∷ []) = none
submit_params (user ∷ job_id ∷ []) = none
submit_params (user ∷ job_id ∷ nonce ∷ x ∷ more) = none
submit_params (user ∷ job_id ∷ nonce ∷ []) = do
  id ← decode_hex job_id
  n ← decode_hex nonce
  if length id == 16 && length n == 8 then some (id, n) else none

-- `mining.authorize` takes three parameters at least and reads the first.
unfoldable pub authorize_param : List Bytes → Option Bytes
authorize_param (user ∷ x ∷ y ∷ more) = some user
authorize_param (user ∷ x ∷ []) = none
authorize_param (user ∷ []) = none
authorize_param [] = none

module _ (float : Float) where
  open float use {F, of_ℕ, to_ℕ}

  pub record StratumConn : Type 0 where
    pub client : Client float
    pub miner_id : Bytes
    pub ip : Bytes
    pub last_out_id : ℕ
    pub alive : Bool

  -- What a request leaves, and what is sent to the miner.
  pub record Turn : Type 0 where
    pub conn : StratumConn
    pub limiter : Limiter
    pub sent : List Message
    pub status : Status

  abbrev pub turn : StratumConn → Limiter → List Message → Status → Turn
  turn c l sent status = record { conn = c; limiter = l; sent = sent; status = status }

  abbrev pub closed : StratumConn → StratumConn
  closed c = record c { alive = false }

  abbrev pub with_client : StratumConn → Client float → StratumConn
  with_client c client = record c { client = client }

  abbrev pub with_miner : StratumConn → Miner → StratumConn
  with_miner c m = with_client c (record c.client { miner = m })

  abbrev pub with_lock : Bool → StratumConn → StratumConn
  with_lock b c = with_miner c (record c.client.miner { locked = b })

  -- Each request takes the next id.
  unfoldable pub numbered : ℕ → List Request → ℕ × List Message
  numbered last [] = (last, [])
  numbered last (r ∷ rs) =
      let id = (last + 1) % 2 ^ 32 in let (last', ms) = numbered id rs in (last', request id r ∷ ms)

  -- The difficulty that is sent follows `next_diff`; `seconds` is the time since the last share.
  unfoldable pub send_stratum :
      ℕ → F → Bytes → Bytes → ℕ → Bytes → StratumConn → StratumConn × List Message
  unfolding send_stratum_job get_next_diff numbered
  send_stratum min_difficulty seconds job_id pool_nonce block_diff blob c =
      let next = to_ℕ (get_next_diff float min_difficulty seconds c.client.next_diff) in
      let (m, requests) = send_stratum_job next job_id pool_nonce block_diff blob c.client.miner in
      let (last_out_id, sent) = numbered c.last_out_id requests in
      (record (with_miner c m) { last_out_id = last_out_id }, sent)

  -- What is not under the configuration of the requests: the pool nonce, the configured least and
  -- initial difficulties, and the job that is known last.
  module _ (json : Json) (decoder : Decoder) (is_valid : Bytes → Bool) (pool_nonce : Bytes)
      (min_difficulty initial_difficulty : ℕ) (last : MemJob) where
    -- `written` says whether the response could be written.
    unfoldable pub on_subscribe : ℕ → Bool → Limiter → StratumConn → Turn
    unfolding stratum_blob
    on_subscribe id written l c =
        let blob = stratum_blob pool_nonce c.miner_id last.blob in
        let sent : List Message =
          response id
            (subscribed (encode_hex (get_extra_nonce blob)) (encode_hex (get_publickey blob)))
          ∷ [] in
        if written then turn c l sent running else turn (closed c) l [] returned

    -- The address is in use before the response is written.
    unfoldable pub authorized : Bytes → ℕ → StratumConn → StratumConn
    unfolding authorized_jobs
    authorized wall diff c = with_client c (record c.client {
      wallet = wall;
      next_diff = of_ℕ diff;
      miner = record c.client.miner { jobs = authorized_jobs diff c.client.miner.jobs };
    })

    unfoldable pub asked_diff : Option ℕ → ℕ
    asked_diff none = initial_difficulty
    asked_diff (some d) = d

    unfoldable pub authorize : F → Bytes → ℕ → Bytes → Bool → Limiter → StratumConn → Turn
    unfolding authorized asked_diff send_stratum parse_addr
    authorize seconds job_id id user written l c =
        let (wall, diff) = parse_addr min_difficulty user in
        let c' = authorized wall (asked_diff diff) c in
        if is_valid wall
        then (if written
            then (let (c'', job) =
                  send_stratum min_difficulty seconds job_id pool_nonce last.diff last.blob c' in
                turn c'' l (response id done ∷ job) running)
            else turn (closed c') l [] returned)
        else turn (closed c) l (response id (failed 1) ∷ []) returned

    unfoldable pub on_authorize : F → Bytes → ℕ → Bytes → Bool → Limiter → StratumConn → Turn
    unfolding authorize_param authorize
    on_authorize seconds job_id id params written l c =
        elim (json.strings params >>= authorize_param) [
          | none ↦ turn (closed c) l [] returned
          | some user ↦ authorize seconds job_id id user written l c
        ]

    -- The clock in seconds and in milliseconds, and the job that the verification asks for before
    -- it is looked at.
    module _ (now now_ms : ℕ) (late : JobToSend) where
      unfoldable pub resend : F → Bytes → StratumConn → StratumConn × List Message
      unfolding send_stratum
      resend seconds job_id c = elim late [
        | none ↦ (c, [])
        | some (diff, blob) ↦
            if diff == 0
            then (c, [])
            else send_stratum min_difficulty seconds job_id pool_nonce diff blob c
      ]

      abbrev pub verdict : Reply → Result
      verdict (checked a) = if answer_accepts a then done else failed 20
      verdict r = failed 20

      -- The answer to a share that the handler has checked. The mutex is taken first.
      unfoldable pub answered : F → Bytes → ℕ → StratumConn → Handled float → Turn
      unfolding resend
      answered seconds job_id id c r =
          let c' = with_client c r.client in
          if r.client.miner.locked
          then turn c' r.limiter [] blocked
          else if kicks r.reply
          then turn (closed c') r.limiter [] returned
          else (let (c'', job) = resend seconds job_id c' in
              turn c'' r.limiter (response id (verdict r.reply) ∷ job) running)

      unfoldable pub on_block : F → Bytes → ℕ → Bytes → Limiter → StratumConn → Turn
      unfolding answered handle_conn_packet
      on_block seconds job_id id bm l c = elim (json.submit_data bm) [
        | none ↦ turn (closed c) l [] returned
        | some body ↦ answered seconds job_id id c (
            handle_conn_packet float decoder is_valid min_difficulty last now now_ms
              (remove_port c.ip) pool_nonce c.miner_id 10 (codes "submit~" ++ body) l c.client)
      ]

      -- A stale share leaves the mutex locked.
      unfoldable pub on_submit : F → Bytes → ℕ → Bytes → Limiter → StratumConn → Turn
      unfolding submit_params share_block on_block
      on_submit seconds job_id id params l c = elim (json.strings params >>= submit_params) [
        | none ↦ turn (closed c) l [] returned
        | some (share_id, nonce) ↦
            let bm = share_block pool_nonce share_id nonce c.client.miner.jobs in
            if get_timestamp bm == 0
            then turn (with_lock true c) l (response id (failed 21) ∷ []) running
            else on_block seconds job_id id bm l c
      ]

      unfoldable pub on_request : F → Bytes → RequestIn → Bool → Limiter → StratumConn → Turn
      unfolding on_subscribe on_authorize on_submit
      on_request seconds job_id req written l c =
          if req.method =? codes "mining.subscribe"
          then on_subscribe req.id written l c
          else if req.method =? codes "mining.authorize"
          then on_authorize seconds job_id req.id req.params written l c
          else if req.method =? codes "mining.submit"
          then on_submit seconds job_id req.id req.params l c
          else turn c l [] running

      -- One round of the loop; `read` is the line, `none` an error of the connection.
      unfoldable pub handle_stratum : F → Bytes → Option Bytes → Bool → Limiter → StratumConn → Turn
      unfolding on_request
      handle_stratum seconds job_id read written l c =
          if c.client.miner.locked then turn c l [] blocked else elim (read >>= json.request) [
            | none ↦ turn (closed c) l [] returned
            | some req ↦ on_request seconds job_id req written l c
          ]
