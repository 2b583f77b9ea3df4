-- ===== src/Slave/Stratum/Race.antt =====
-- A new connection of the Stratum server while `sendJobs` runs: `handleStratumConns` of
-- cmd/slave/stratum.go appends to the list of connections without the mutex of the server.
use xelis_pool.Common.{
  ℕ, ◌+◌, ◌≡◌, refl, true, Option, none, some, List, [], ◌∷◌, ◌++◌, map, arith, if◌then◌else◌,
  Bool-cases, inl, inr,
}
use xelis_pool.Common.Bytes.{Bytes, ◌=?◌}
use xelis_pool.RateLimit.{Conns, Limiter, conns_of, can_connect, can_do_action, disconnect}
use xelis_pool.Slave.Sweep.{sweep, listed, listed-append, Counted, admit, admit_lem, counted}
use xelis_pool.Slave.Stratum.{StratumConn}
use xelis_pool.Slave.Stratum.Server.{Served, ip_of, is_alive, accept, send_jobs}
use xelis_pool.Master.Float.{Float}

module _ (float : Float) where
  open float use {F}

  abbrev pub Peers : Type 0
  Peers = List (StratumConn float)

  -- The limits of a new connection, and the list that `append` makes of the one that it reads.
  unfoldable pub accept_reads :
      ℕ → StratumConn float → Limiter → Served float → Limiter × (Served float × Option Peers)
  accept_reads now c l s =
      let (l', allowed) = can_do_action c.ip 10 now l in
      let (m, may) = can_connect c.ip s.open_conns in
      let counted : Served float = record s { open_conns = m } in
      (
        l',
        if allowed then (counted, if may then some (s.conns ++ (c ∷ [])) else none) else (s, none),
      )

  -- `s.Conns = …`
  unfoldable pub accept_stores : Option Peers → Served float → Served float
  accept_stores none s = s
  accept_stores (some cs) s = record s { conns = cs }

  -- With nothing in between the two are the arrival of a connection.
  pub accept_stores-accept_reads :
      (now : ℕ) (c : StratumConn float) (l : Limiter) (s : Served float)
      → let (l', (s', cs)) = accept_reads now c l s in
        (l', accept_stores cs s') ≡ accept float now c l s
  unfolding accept_reads accept_stores accept admit
  accept_stores-accept_reads now c l s = ground arith

  -- The dead connections of an IP.
  unfoldable pub dead : Bytes → Peers → ℕ
  dead ip [] = 0
  dead ip (c ∷ cs) = (if c.alive then 0 else if c.ip =? ip then 1 else 0) + dead ip cs

  listed-sweep :
      (ip : Bytes) (cs : Peers) (m : Conns)
      → listed (ip_of float) (is_alive float) ip (sweep (ip_of float) (is_alive float) cs m).0
          + dead ip cs
        ≡ listed (ip_of float) (is_alive float) ip cs
  unfolding listed sweep dead
  listed-sweep ip [] m = refl
  listed-sweep ip (c ∷ cs) m =
      ground (arith, listed-sweep ip cs m, listed-sweep ip cs (disconnect c.ip m))

  accept_reads_lem :
      (now : ℕ) (c : StratumConn float) (l : Limiter) (s s1 : Served float) (cs : Peers)
      → (accept_reads now c l s).1 ≡ (s1, some cs)
      → (s1 ≡ record s { open_conns = (can_connect c.ip s.open_conns).0 })
        × (cs ≡ s.conns ++ (c ∷ []))
        × ((can_connect c.ip s.open_conns).1 ≡ true)
  unfolding accept_reads
  accept_reads_lem now c l s s1 cs e = elim (Bool-cases (can_do_action c.ip 10 now l).1) [
    | inr refused ↦ absurd (ground (arith, e, refused))
    | inl allowed ↦ elim (Bool-cases (can_connect c.ip s.open_conns).1) [
      | inr full ↦ absurd (ground (arith, e, allowed, full))
      | inl may ↦ (ground (arith, e, allowed, may), ground (arith, e, allowed, may), may)
    ]
  ]

  -- The counts of a connection that may connect, before it is listed.
  connected :
      (others : Bytes → ℕ) (c : StratumConn float) (cs : Peers) (m : Conns) (ip : Bytes)
      → Counted (ip_of float) (is_alive float) others cs m
      → (can_connect c.ip m).1 ≡ true
      → conns_of ip (can_connect c.ip m).0
        ≡ others ip + listed (ip_of float) (is_alive float) ip (cs ++ (c ∷ []))
  unfolding admit
  connected others c cs m ip h may =
      let all = admit_lem (ip_of float) (is_alive float) others c cs m h ip in rw may at all

  -- A new connection whose place in the list is taken before `sendJobs` removes the dead ones, and
  -- stored after it, brings them back: the list is the one before with the new connection, and the
  -- counter of each IP is less than its connections in the list by the dead ones of it. The counters
  -- were right before, and the connection is within the limits.
  pub append_brings_back :
      (others : Bytes → ℕ) (now : ℕ) (c : StratumConn float) (l : Limiter) (s s1 : Served float)
      (cs : Peers) (min_difficulty : ℕ) (pool_nonce : Bytes) (diff : ℕ) (blob : Bytes)
      (job_ids : ℕ → Bytes) (seconds : ℕ → F)
      → Counted (ip_of float) (is_alive float) others s.conns s.open_conns
      → (accept_reads now c l s).1 ≡ (s1, some cs)
      → let (m, sent) = send_jobs float min_difficulty pool_nonce diff blob job_ids seconds s1 in
        let s2 = accept_stores (some cs) (record { conns = map (λ x. x.0) sent; open_conns = m }) in
        (s2.conns ≡ s.conns ++ (c ∷ []))
        × ((ip : Bytes)
            → conns_of ip s2.open_conns + dead ip s.conns
              ≡ others ip + listed (ip_of float) (is_alive float) ip s2.conns)
  unfolding accept_stores send_jobs
  append_brings_back others now c l s s1 cs min_difficulty pool_nonce diff blob job_ids seconds h
        e =
      let (counts, list, may) = accept_reads_lem now c l s s1 cs e in
      let m = (can_connect c.ip s.open_conns).0 in
      let of_ip = listed (ip_of float) (is_alive float) in
      (
        list,
        λ ip. rw counts (
            rw list (
              omega (
                arith,
                counted (ip_of float) (is_alive float) ip (others ip + of_ip ip (c ∷ [])) s.conns m
                    (omega (
                      arith,
                      connected others c s.conns s.open_conns ip h may,
                      listed-append (ip_of float) (is_alive float) ip s.conns (c ∷ []),
                    )),
                listed-sweep ip s.conns m,
                listed-append (ip_of float) (is_alive float) ip s.conns (c ∷ []),
              ))),
      )
