-- ===== src/Slave/Servers/Counts.antt =====
-- How many connections an IP holds over the three servers together, where their operations do not
-- run into each other.
use xelis_pool.Common.{ℕ, ◌+◌, ◌-◌, ◌≤◌, ◌≡◌, ap, Bool, List, [], ◌∷◌, ◌++◌, arith}
use xelis_pool.Common.Bytes.{Bytes}
use xelis_pool.Common.Assoc.{lookup_or}
use xelis_pool.RateLimit.{conns_of, max_connections_per_ip}
use xelis_pool.RateLimit.Connections.{IsBounded}
use xelis_pool.Xatum.{Connection, kick, kick_conn, action_connect, accept_conn, handle_connection}
use xelis_pool.Xatum
use xelis_pool.Xatum.Kicks.{open_from}
use xelis_pool.Slave.Packet.{Decoder}
use xelis_pool.Slave.Sweep.{listed, listed-replaced}
use xelis_pool.Slave.Stratum
use xelis_pool.Slave.Stratum.Server
use xelis_pool.Slave.Stratum.Reach
use xelis_pool.Slave.Stratum.Reach.{Step-IsCounted}
use xelis_pool.Slave.Getwork.{
  GetworkConn, miner_work, miner_blob, join, send_getwork, start, send_all, send_getwork_jobs,
  resend, answered, on_blob, ws_message,
}
use xelis_pool.Slave.Getwork
use xelis_pool.Slave.Servers.{
  Servers, xatum_of, stratum_of, getwork_of, with_xatum, with_stratum, Step, Reachable,
  xatum_arrives, xatum_kicks, stratum_steps, getwork_joins, getwork_sends, getwork_starts,
  getwork_handles, here, next,
}
use xelis_pool.Master.Float.{Float}
use xelis_pool.Xatum.Counts.{IsCounted, accept_conn-IsCounted, kick_conn-IsCounted}
use xelis_pool.Slave.Getwork.Counts.{
  gw_listed, join-covered, join-IsBounded, start_ip, ws_message_ip, send_getwork_jobs-covered,
  send_getwork_jobs-IsBounded,
}

module _ (float : Float) (is_valid : Bytes → Bool) (decoder : Decoder) (stratum_json : Stratum.Json)
    (getwork_json : Getwork.Json) (pool_nonce : Bytes) (min_difficulty initial_difficulty : ℕ) where
  abbrev st_listed : Bytes → List (Stratum.StratumConn float) → ℕ
  st_listed = listed (Server.ip_of float) (Server.is_alive float)

  abbrev no_servers : Servers float
  no_servers = record { xatum = []; stratum = []; getwork = []; open_conns = [] }

  abbrev IsStep : Servers float → Servers float → Type 0
  IsStep =
      Step float is_valid decoder stratum_json getwork_json pool_nonce min_difficulty
        initial_difficulty

  abbrev pub IsReachable : Servers float → Servers float → Type 0
  IsReachable =
      Reachable float is_valid decoder stratum_json getwork_json pool_nonce min_difficulty
        initial_difficulty

  -- The connections of an IP at all servers.
  abbrev pub held : Bytes → Servers float → ℕ
  held ip s = open_from ip s.xatum + st_listed ip s.stratum + gw_listed float ip s.getwork

  abbrev IsStratum : (Bytes → ℕ) → Server.Served float → Type 0
  IsStratum =
      Reach.IsCounted float stratum_json decoder is_valid pool_nonce min_difficulty
        initial_difficulty

  record IsCovered (s : Servers float) : Type 0 where
    pub covered : (ip : Bytes) → held ip s ≤ conns_of ip s.open_conns
    pub bounded : IsBounded s.open_conns

  module _ (s : Servers float) (h : IsCovered s) where
    -- What the counters hold besides the connections of the Xatum server, and of the Stratum server.
    abbrev but_xatum : Bytes → ℕ
    but_xatum ip = conns_of ip s.open_conns - open_from ip s.xatum

    abbrev but_stratum : Bytes → ℕ
    but_stratum ip = conns_of ip s.open_conns - st_listed ip s.stratum

    abbrev but_getwork : Bytes → ℕ
    but_getwork ip = open_from ip s.xatum + st_listed ip s.stratum

    xatum-IsCovered :
        (x : Xatum.Server)
        → (IsCounted but_xatum (xatum_of float s) → IsCounted but_xatum x)
        → IsCovered (with_xatum float s x)
    xatum-IsCovered x keeps =
        let (count, bound) = keeps (λ ip. omega (arith, h.covered ip), h.bounded) in
        record { covered = λ ip. omega (arith, count ip, h.covered ip); bounded = bound }

    stratum-IsCovered :
        (x : Server.Served float)
        → (IsStratum but_stratum (stratum_of float s) → IsStratum but_stratum x)
        → IsCovered (with_stratum float s x)
    stratum-IsCovered x keeps =
        let k =
          keeps (record { counted = λ ip. omega (arith, h.covered ip); bounded = h.bounded }) in
        record { covered = λ ip. omega (arith, k.counted ip, h.covered ip); bounded = k.bounded }

    replaced-IsCovered :
        (before behind : List (GetworkConn float)) (c c' : GetworkConn float)
        → c'.ip ≡ c.ip
        → s.getwork ≡ before ++ (c ∷ behind)
        → IsCovered (record s { getwork = before ++ (c' ∷ behind) })
    replaced-IsCovered before behind c c' e at = record {
      covered = λ ip. omega (
        arith,
        h.covered ip,
        ap (gw_listed float ip) at,
        listed-replaced (Getwork.ip_of float) (Getwork.is_alive float) ip before behind c c' e,
      );
      bounded = h.bounded;
    }

  Step-IsCovered : {s t : Servers float} → IsStep s t → IsCovered s → IsCovered t
  Step-IsCovered {s} (xatum_arrives now c l) h =
      xatum-IsCovered s h _ (accept_conn-IsCounted (but_xatum s h) now c l (xatum_of float s))
  Step-IsCovered {s} (xatum_kicks id) h =
      xatum-IsCovered s h _ (kick_conn-IsCounted (but_xatum s h) id (xatum_of float s))
  Step-IsCovered {s} (stratum_steps {x} st) h = stratum-IsCovered s h x (
      Step-IsCounted float stratum_json decoder is_valid pool_nonce min_difficulty
        initial_difficulty (but_stratum s h) st)
  Step-IsCovered {s} (getwork_joins now now_ms ip addr l) h = record {
    covered = λ j.
        join-covered float (but_getwork s h) is_valid min_difficulty now now_ms ip addr l
          (getwork_of float s) j (h.covered j);
    bounded =
        join-IsBounded float (but_getwork s h) is_valid min_difficulty now now_ms ip addr l
          (getwork_of float s) h.bounded;
  }
  Step-IsCovered {s} (getwork_sends seconds random written diff blob algorithm) h = record {
    covered = λ j.
        send_getwork_jobs-covered float min_difficulty pool_nonce seconds random written diff blob
          algorithm (getwork_of float s) (but_getwork s h) j (h.covered j);
    bounded =
        send_getwork_jobs-IsBounded float min_difficulty pool_nonce seconds random written diff blob
          algorithm (getwork_of float s) h.bounded;
  }
  Step-IsCovered {s} (getwork_starts seconds random upgraded last l before behind c at) h =
      replaced-IsCovered s h before behind c _
        (start_ip float min_difficulty pool_nonce seconds random upgraded last l c) at
  Step-IsCovered {s}
        (getwork_handles last first_algorithm now now_ms late seconds random received read written l
          before behind c at)
        h =
      replaced-IsCovered s h before behind c _
        (ws_message_ip float min_difficulty pool_nonce getwork_json decoder is_valid last
          first_algorithm now now_ms late seconds random received read written l c)
        at

  empty-IsCovered : IsCovered no_servers
  unfolding listed lookup_or open_from
  empty-IsCovered = record { covered = λ ip. omega arith; bounded = λ ip. omega arith }

  Reachable-IsCovered : {s t : Servers float} → IsCovered s → IsReachable s t → IsCovered t
  Reachable-IsCovered h here = h
  Reachable-IsCovered h (next r st) = Step-IsCovered st (Reachable-IsCovered h r)

  -- In every state that the Xatum, Stratum and getwork servers reach together by whole steps from no
  -- connections,
  -- whatever arrives, is kicked, is handled or is sent at each of them, no IP holds more
  -- connections over the three than the shared counter says, and that is at most
  -- MAX_CONNECTIONS_PER_IP + 1.
  pub held_within_limit :
      (s : Servers float)
      → IsReachable no_servers s
      → (ip : Bytes)
      → (held ip s ≤ conns_of ip s.open_conns) × (held ip s ≤ max_connections_per_ip + 1)
  held_within_limit s r ip =
      let h = Reachable-IsCovered empty-IsCovered r in
      (h.covered ip, omega (arith, h.covered ip, h.bounded ip))
