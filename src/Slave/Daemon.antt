-- ===== src/Slave/Daemon.antt =====
-- The jobs of the daemon in `getworkConn` and `sendJobs` of cmd/slave/daemon_conn.go, and the
-- packets of Xatum miners in `handleConn` of cmd/slave/xatum.go.
pub mod Bans
pub mod Links
use xelis_pool.Common.{
  ℕ, ◌+◌, ◌*◌, ◌-◌, ◌%◌, ◌^◌, Bool, true, false, ◌&&◌, ◌||◌, not, Option, none, some, List, [], ◌∷◌,
  ◌++◌, length, ltb, ◌==◌, if◌then◌else◌,
}
use xelis_pool.Common.Bytes.{Bytes}
use xelis_pool.Common.Hex.{decode_hex}
use xelis_pool.Common.Text.{parse_uint, remove_port}
use xelis_pool.RateLimit.{Limiter, Conns, ban}
use xelis_pool.Pow.BlockMiner.{blockminer_length}
use xelis_pool.Pow.Algorithm.{convert_algorithm_to_stratum}
use xelis_pool.Slave.Submit.{Job, Miner, blank_id}
use xelis_pool.Slave.Jobs.{XatumJob, send_job, last_job}
use xelis_pool.Slave.Packet.{
  Decoder, Reply, silent, unknown, kicks, MemJob, JobToSend, Client, Handled, handle_conn_packet,
}
use xelis_pool.Xatum.{Connection, kick, get_next_diff}
use xelis_pool.Master.Float.{Float}

-- A job of the daemon, as its SDK gives it.
pub record BlockTemplate : Type 0 where
  pub template : Bytes
  pub difficulty : Bytes
  pub height : ℕ
  pub algorithm : Bytes

-- What a job comes to: it is skipped, an unknown algorithm ends the slave, or it is sent to all miners and known.
pub data Received : Type 0 where
  skipped fatal : Received
  known : MemJob → Received

unfoldable pub on_template : BlockTemplate → Received
unfolding parse_uint
on_template job = elim (decode_hex job.template) [
  | none ↦ skipped
  | some blob ↦ elim (convert_algorithm_to_stratum job.algorithm) [
    | none ↦ fatal
    | some algorithm ↦ elim (parse_uint job.difficulty) [
      | none ↦ skipped
      | some diff ↦
          if length blob == blockminer_length
          then known
              (record { blob = blob; diff = diff; height = job.height; algorithm = algorithm })
          else skipped
    ]
  ]
]

module _ (float : Float) where
  open float use {F, to_ℕ}

  -- `address` has the port.
  pub record XatumConn : Type 0 where
    pub id : ℕ
    pub address : Bytes
    pub client : Client float

  abbrev pub connection_of : XatumConn → Connection
  connection_of c = record { id = c.id; ip = remove_port c.address }

  -- What is sent to a miner: the job, and the print of a reply or of an idle miner.
  pub data Message : Type 0 where
    job : XatumJob → Message
    print : Reply → Message
    no_recent_share : Message

  -- Whether the handler waits for its next packet, kicks its miner, or waits for the mutex of its
  -- connection.
  pub data Status : Type 0 where
    running kicked blocked : Status

  pub record Turn : Type 0 where
    pub conn : XatumConn
    pub limiter : Limiter
    pub sent : List Message
    pub status : Status

  abbrev pub turn : XatumConn → Limiter → List Message → Status → Turn
  turn c l sent status = record { conn = c; limiter = l; sent = sent; status = status }

  abbrev pub prints : Reply → List Message
  prints silent = []
  prints r = print r ∷ []

  module _ (min_difficulty : ℕ) (pool_nonce : Bytes) where
    unfoldable pub send_xatum : F → Bytes → ℕ → Bytes → XatumConn → XatumConn × List Message
    unfolding send_job get_next_diff
    send_xatum seconds random diff blob c =
        let next = to_ℕ (get_next_diff float min_difficulty seconds c.client.next_diff) in
        let (m, sent) = send_job next random pool_nonce diff blob c.client.miner in
        (record c { client = record c.client { miner = m } }, job sent ∷ [])

    -- `sendJobs` for one connection: nothing before the handshake; a miner without a share for ten minutes is
    -- banned and kicked. Times are in milliseconds, of the ban in seconds.
    unfoldable pub send_to_conn : F → Bytes → ℕ → ℕ → ℕ → Bytes → Limiter → XatumConn → Turn
    unfolding ban send_xatum
    send_to_conn seconds random now now_ms diff blob l c =
        let (c', sent) = send_xatum seconds random diff blob c in
        if c.client.miner.locked
        then turn c l [] blocked
        else if (last_job c.client.miner.jobs).diff == 0
        then turn c l [] running
        else if ltb (10 * 60 * 1000) (now_ms - c.client.miner.last_share)
        then turn c (ban c.address (now + 5 * 60) now l) (no_recent_share ∷ []) kicked
        else turn c' l sent running

    module _ (decoder : Decoder) (is_valid : Bytes → Bool) (last : MemJob) (now now_ms : ℕ) where
      -- The job behind the packet, which is sent also to a miner that is kicked.
      unfoldable pub after_packet : F → Bytes → XatumConn → Handled float → Turn
      unfolding send_xatum
      after_packet seconds random c r =
          let c' : XatumConn = record c { client = r.client } in
          let (c'', sent) : XatumConn × List Message = elim r.to_send [
            | none ↦ (c', [])
            | some (diff, blob) ↦
                let next = send_xatum seconds random diff blob c' in
                if diff == 0 then (c', []) else next
          ] in
          turn c'' r.limiter (prints r.reply ++ sent) (if kicks r.reply then kicked else running)

      -- One round of the loop, `received` counting the packet from 1 on; `none` is an error of the connection.
      -- The mutex is taken for the deadline and for the print.
      unfoldable pub handle_conn : F → Bytes → ℕ → Option Bytes → Limiter → XatumConn → Turn
      unfolding after_packet handle_conn_packet
      handle_conn seconds random received none l c =
          if c.client.miner.locked then turn c l [] blocked else turn c l [] kicked
      handle_conn seconds random received (some str) l c =
          let r =
            handle_conn_packet float decoder is_valid min_difficulty last now now_ms
              (remove_port c.address) pool_nonce blank_id received str l c.client in
          let next = after_packet seconds random c r in
          if c.client.miner.locked
          then turn c l [] blocked
          else if r.client.miner.locked
          then turn (record c { client = r.client }) r.limiter [] blocked
          else next
