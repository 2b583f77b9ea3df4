-- ===== src/Slave/Stratum/Server.antt =====
-- The connections of the Stratum server: `handleStratumConns`, its pinger and `sendJobs` of
-- cmd/slave/stratum.go. The server's own mutex makes the pinger and `sendJobs` one step each; a new
-- connection is listed without it, which is one step here where no other comes in between. A step
-- that waits for the mutex of a connection, which only that connection's handler can give back, is
-- `none`.
use xelis_pool.Common.{
  ℕ, ◌+◌, ◌%◌, ◌^◌, ◌≡◌, refl, Bool, true, Bool-cases, inl, inr, Option, none, some, List, [], ◌∷◌,
  ◌++◌, if◌then◌else◌,
}
use xelis_pool.Common.Options.{◌>>=◌}
use xelis_pool.Common.Bytes.{Bytes}
use xelis_pool.RateLimit.{Conns, Limiter, can_do_action}
use xelis_pool.Slave.Sweep.{sweep, admit}
use xelis_pool.Slave.Stratum.{Message, ping, StratumConn, send_stratum}
use xelis_pool.Master.Float.{Float}

module _ (float : Float) where
  open float use {F, of_ℕ}

  pub record Served : Type 0 where
    pub conns : List (StratumConn float)
    pub open_conns : Conns

  -- The pings of the connections, in their order.
  unfoldable pub ping_all :
      List (StratumConn float) → Option (List (StratumConn float) × List Message)
  ping_all [] = some ([], [])
  ping_all (c ∷ cs) =
      let rest = ping_all cs in
      if c.client.miner.locked then none else (do
        (cs', sent) ← rest
        let id = (c.last_out_id + 1) % 2 ^ 32
        some (record c { last_out_id = id } ∷ cs', ping id ∷ sent))

  -- `None` while a mutex is held: the pinger then waits with the server's mutex in its hands.
  unfoldable pub ping_conns : Served → Option (Served × List Message)
  unfolding ping_all
  ping_conns s = do (cs, sent) ← ping_all s.conns; some (record s { conns = cs }, sent)

  abbrev pub ip_of : StratumConn float → Bytes
  ip_of c = c.ip

  abbrev pub is_alive : StratumConn float → Bool
  is_alive c = c.alive

  -- A new connection, refused by the limit of the rate or of the open connections, or listed.
  unfoldable pub accept : ℕ → StratumConn float → Limiter → Served → Limiter × Served
  unfolding admit
  accept now c l s =
      let (l', allowed) = can_do_action c.ip 10 now l in
      let (conns, open_conns) = admit ip_of is_alive c s.conns s.open_conns in
      (l', if allowed then record { conns = conns; open_conns = open_conns } else s)

  module _ (min_difficulty : ℕ) (pool_nonce : Bytes) (diff : ℕ) (blob : Bytes) where
    -- Each connection is sent the job once its mutex is free; `job_ids` are the random ids, and
    -- `seconds` the times since the last shares.
    unfoldable pub send_all :
        (ℕ → Bytes)
        → (ℕ → F)
        → ℕ
        → List (StratumConn float)
        → List (StratumConn float × List Message)
    unfolding send_stratum
    send_all job_ids seconds n [] = []
    send_all job_ids seconds n (c ∷ cs) =
        (if c.client.miner.locked
          then (c, [])
          else send_stratum float min_difficulty (seconds n) (job_ids n) pool_nonce diff blob c)
        ∷ send_all job_ids seconds (n + 1) cs

    unfoldable pub send_jobs :
        (ℕ → Bytes) → (ℕ → F) → Served → Conns × List (StratumConn float × List Message)
    unfolding sweep send_all
    send_jobs job_ids seconds s =
        let (cs, open_conns) = sweep ip_of is_alive s.conns s.open_conns in
        (open_conns, send_all job_ids seconds 0 cs)

  -- A connection whose mutex is held is pinged never, and nothing else is pinged or, since the
  -- server's mutex is held as well, served.
  pub ping_all-locked :
      (before behind : List (StratumConn float)) (c : StratumConn float)
      → c.client.miner.locked ≡ true
      → ping_all (before ++ (c ∷ behind)) ≡ none
  unfolding ping_all
  ping_all-locked [] behind c h = rw h refl
  ping_all-locked (b ∷ before) behind c h = elim (Bool-cases b.client.miner.locked) [
    | inl held ↦ rw held refl
    | inr free ↦ rw (free, ping_all) (rw (ping_all-locked before behind c h) refl)
  ]
