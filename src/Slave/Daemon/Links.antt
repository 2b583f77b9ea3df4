-- ===== src/Slave/Daemon/Links.antt =====
-- The connections of a slave to the daemon: `handleDaemon`, `getworkConn` and `SubmitBlock` of
-- cmd/slave/daemon_conn.go. What the daemon sends is an argument.
pub mod Known
use xelis_pool.Common.{Bool, true, false, Option, none, some, List, [], ◌∷◌, ◌++◌, if◌then◌else◌}
use xelis_pool.Common.Bytes.{Bytes}
use xelis_pool.Slave.Packet.{MemJob}
use xelis_pool.Slave.Daemon.{BlockTemplate, Received, skipped, fatal, known, on_template}

-- `LastKnownJob`, whether there is or was a connection (`gwConn`), and whether the slave still runs.
pub record Link : Type 0 where
  pub last : MemJob
  pub connected : Bool
  pub running : Bool

-- A link after some time, with the jobs that went to the three servers.
abbrev pub Linked : Type 0
Linked = Link × List MemJob

unfoldable pub sent_first : MemJob → Linked → Linked
sent_first job (s, jobs) = (s, job ∷ jobs)

-- The jobs of one connection, which ends when their channel is closed. An unknown algorithm ends
-- the slave.
unfoldable pub receive : List BlockTemplate → Link → Linked
unfolding on_template sent_first
receive [] s = (s, [])
receive (t ∷ ts) s = elim (on_template t) [
  | skipped ↦ receive ts s
  | fatal ↦ (record s { running = false }, [])
  | known job ↦ sent_first job (receive ts (record s { last = job }))
]

-- `getworkConn`: `none` is a connection that fails.
unfoldable pub getwork_conn : Option (List BlockTemplate) → Link → Linked
unfolding receive
getwork_conn none s = (s, [])
getwork_conn (some ts) s = receive ts (record s { connected = true })

-- `handleDaemon`: one connection after the other, while the slave runs.
unfoldable pub handle_daemon : List (Option (List BlockTemplate)) → Link → Linked
unfolding getwork_conn
handle_daemon [] s = (s, [])
handle_daemon (c ∷ cs) s =
    let (s', jobs) = getwork_conn c s in
    let (s'', rest) = handle_daemon cs s' in if s'.running then (s'', jobs ++ rest) else (s', jobs)

-- `SubmitBlock`: what goes to the daemon; `none` is the error without a connection. A connection
-- that is closed is not forgotten.
unfoldable pub submit_block : Bytes → Link → Option Bytes
submit_block hex s = if s.connected then some hex else none
