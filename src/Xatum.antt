-- ===== src/Xatum.antt =====
-- xatum/server/server.go: the connections of the Xatum server, and the difficulty of a miner.
pub mod Kicks
pub mod Counts
pub mod Client
pub mod Packets
use xelis_pool.Common.{ℕ, Bool, true, false, List, [], ◌∷◌, ◌++◌, ◌==◌, if◌then◌else◌}
use xelis_pool.Common.Bytes.{Bytes}
use xelis_pool.RateLimit.{Conns, Limiter, can_connect, disconnect, can_do_action}
use xelis_pool.Master.Float.{Float}

-- `ACTION_CONNECT`
abbrev pub action_connect : ℕ
action_connect = 10

-- The id and the address without its port.
pub record Connection : Type 0 where
  pub id : ℕ
  pub ip : Bytes

-- The connections that stay, in order, and the counts per IP.
unfoldable pub kick : ℕ → List Connection → Conns → List Connection × Conns
kick k [] m = ([], m)
kick k (v ∷ vs) m =
    let gone = kick k vs (disconnect v.ip m) in
    let stays = kick k vs m in if v.id == k then gone else (v ∷ stays.0, stays.1)

-- The server: the list of its connections, and the counts per IP, which all servers share.
pub record Server : Type 0 where
  pub connections : List Connection
  pub open_conns : Conns

-- `handleConnection`, which holds the server's mutex.
unfoldable pub handle_connection : Connection → Server → Server
handle_connection c s =
    let (open_conns, allowed) = can_connect c.ip s.open_conns in
    if allowed
    then record { connections = s.connections ++ (c ∷ []); open_conns = open_conns }
    else s

-- A connection that the loop of `Start` accepts; `now` is the clock.
unfoldable pub accept_conn : ℕ → Connection → Limiter → Server → Limiter × Server
unfolding handle_connection
accept_conn now c l s =
    let (l', allowed) = can_do_action c.ip action_connect now l in
    (l', if allowed then handle_connection c s else s)

-- `Server.Kick`, as one step; `sendPingPackets` of cmd/slave/slave.go calls it without the mutex of
-- the server, which the other callers hold.
unfoldable pub kick_conn : ℕ → Server → Server
unfolding kick
kick_conn k s =
    let (connections, open_conns) = kick k s.connections s.open_conns in
    record { connections = connections; open_conns = open_conns }

module _ (float : Float) where
  open float use {F, of_ℕ, add, div, lt}

  -- `seconds` is the time since the last share.
  unfoldable pub get_next_diff : ℕ → F → F → F
  get_next_diff min_difficulty seconds next_diff =
      let d : F =
        if lt (of_ℕ 1) seconds
        then div next_diff (add (of_ℕ 1) (div seconds (of_ℕ 40)))
        else next_diff in
      if lt d (of_ℕ min_difficulty) then of_ℕ min_difficulty else d
