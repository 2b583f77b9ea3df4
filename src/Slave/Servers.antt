-- ===== src/Slave/Servers.antt =====
-- The three servers of cmd/slave/slave.go, which share the counts of rate_limit/perip.go: the Xatum
-- server of xatum/server/server.go, the Stratum server of cmd/slave/stratum.go and the getwork
-- server of cmd/slave/getwork.go. Each operation is one step here; in the code the Stratum server
-- lists a new connection, and `sendPingPackets` kicks one, without the mutex of the server.
pub mod Counts
use xelis_pool.Common.{ℕ, ◌+◌, ◌%◌, ◌^◌, ◌≡◌, Bool, Option, List, [], ◌∷◌, ◌++◌, length, map}
use xelis_pool.Common.Bytes.{Bytes}
use xelis_pool.RateLimit.{Limiter, Conns}
use xelis_pool.Xatum.{Connection, accept_conn, kick_conn}
use xelis_pool.Xatum
use xelis_pool.Slave.Packet.{Decoder, MemJob, JobToSend}
use xelis_pool.Slave.Packets.{send_stats}
use xelis_pool.Slave.Stratum.{StratumConn}
use xelis_pool.Slave.Stratum
use xelis_pool.Slave.Stratum.Server
use xelis_pool.Slave.Stratum.Reach
use xelis_pool.Slave.Getwork.{GetworkConn, join, start, send_getwork_jobs, ws_message}
use xelis_pool.Slave.Getwork
use xelis_pool.Master.Float.{Float}

module _ (float : Float) where
  open float use {F}

  pub record Servers : Type 0 where
    pub xatum : List Connection
    pub stratum : List (StratumConn float)
    pub getwork : List (GetworkConn float)
    pub open_conns : Conns

  -- Each server sees its own connections and the shared counts.
  abbrev pub xatum_of : Servers → Xatum.Server
  xatum_of s = record { connections = s.xatum; open_conns = s.open_conns }

  abbrev pub stratum_of : Servers → Server.Served float
  stratum_of s = record { conns = s.stratum; open_conns = s.open_conns }

  abbrev pub getwork_of : Servers → Getwork.Served float
  getwork_of s = record { conns = s.getwork; open_conns = s.open_conns }

  abbrev pub with_xatum : Servers → Xatum.Server → Servers
  with_xatum s x = record s { xatum = x.connections; open_conns = x.open_conns }

  abbrev pub with_stratum : Servers → Server.Served float → Servers
  with_stratum s x = record s { stratum = x.conns; open_conns = x.open_conns }

  abbrev pub with_getwork : Servers → Getwork.Served float → Servers
  with_getwork s x = record s { getwork = x.conns; open_conns = x.open_conns }

  -- `statsSender`: the message with the numbers of connections.
  unfoldable pub stats_sender : Servers → Bytes
  unfolding send_stats
  stats_sender s = send_stats (length s.xatum + length s.stratum) (length s.getwork)

  module _ (is_valid : Bytes → Bool) (decoder : Decoder) (stratum_json : Stratum.Json)
      (getwork_json : Getwork.Json) (pool_nonce : Bytes)
      (min_difficulty initial_difficulty : ℕ) where
    abbrev pub StratumStep : Server.Served float → Server.Served float → Type 0
    StratumStep =
        Reach.Step float stratum_json decoder is_valid pool_nonce min_difficulty initial_difficulty

    -- What the servers do: connections arrive, are kicked or refused, handle what their miners send,
    -- and get the jobs of the daemon. The arguments are those of the operations.
    pub data Step (s : Servers) : Servers → Type 0 where
      xatum_arrives :
          (now : ℕ) (c : Connection) (l : Limiter)
          → Step s (with_xatum s (accept_conn now c l (xatum_of s)).1)
      xatum_kicks : (id : ℕ) → Step s (with_xatum s (kick_conn id (xatum_of s)))
      stratum_steps :
          {x : Server.Served float} → StratumStep (stratum_of s) x → Step s (with_stratum s x)
      getwork_joins :
          (now now_ms : ℕ) (ip addr : Bytes) (l : Limiter)
          → Step s (
              with_getwork s
                (join float is_valid min_difficulty now now_ms ip addr l (getwork_of s)).0.1)
      getwork_sends :
          (seconds : F) (random : ℕ → Bytes) (written : ℕ → Bool) (diff : ℕ)
          (blob algorithm : Bytes)
          → Step s (
              with_getwork s (
                send_getwork_jobs float min_difficulty pool_nonce seconds random written diff blob
                  algorithm
                  (getwork_of s)))
      getwork_starts :
          (seconds : F) (random : Bytes) (upgraded : Bool) (last : MemJob) (l : Limiter)
          (before behind : List (GetworkConn float)) (c : GetworkConn float)
          → s.getwork ≡ before ++ (c ∷ behind)
          → Step s (record s {
            getwork =
                before
                ++ ((start float min_difficulty pool_nonce seconds random upgraded last l c).conn
                    ∷ behind);
          })
      getwork_handles :
          (last : MemJob) (first_algorithm : Bytes) (now now_ms : ℕ) (late : JobToSend)
          (seconds : F) (random : Bytes) (received : ℕ) (read : Option Bytes) (written : Bool)
          (l : Limiter) (before behind : List (GetworkConn float)) (c : GetworkConn float)
          → s.getwork ≡ before ++ (c ∷ behind)
          → Step s (record s {
            getwork =
                before
                ++ ((ws_message float min_difficulty pool_nonce getwork_json decoder is_valid last
                      first_algorithm now now_ms late seconds random received read written l c).conn
                    ∷ behind);
          })

    pub data Reachable (s : Servers) : Servers → Type 0 where
      here : Reachable s s
      next : {t u : Servers} → Reachable s t → Step t u → Reachable s u
