-- ===== src/Slave/Stratum/Reach.antt =====
-- What the Stratum server of cmd/slave/stratum.go can come to: the connections that it lists, and
-- the counters of their IPs, where no new connection is listed while `sendJobs` takes out the dead
-- ones (Slave/Stratum/Race has that case).
use xelis_pool.Common.{
  ℕ, ◌+◌, ◌≤◌, ◌≡◌, ◌∙◌, refl, ap, sym, Bool, Option, List, [], ◌∷◌, ◌++◌, map, arith, Bool-cases,
  Option-cases, inl, inr,
}
use xelis_pool.Common.Options.{◌>>=◌}
use xelis_pool.Common.Bytes.{Bytes}
use xelis_pool.Common.Assoc.{lookup_or}
use xelis_pool.RateLimit.{
  Conns, Limiter, conns_of, can_do_action, disconnect, max_connections_per_ip,
}
use xelis_pool.RateLimit.Connections.{IsBounded, can_connect-IsBounded, disconnect-IsBounded}
use xelis_pool.Slave.Packet.{Decoder, MemJob, JobToSend}
use xelis_pool.Slave.Sweep.{sweep, listed, Counted, admit, sweep_lem, admit_lem, listed-replaced}
use xelis_pool.Slave.Stratum.{
  RequestIn, Message, authorized, Json, StratumConn, send_stratum, resend, answered, on_block,
  on_submit, authorize, on_authorize, on_subscribe, on_request, handle_stratum,
}
use xelis_pool.Slave.Stratum.Server.{Served, ip_of, is_alive, accept, send_all, send_jobs}
use xelis_pool.Master.Float.{Float}

module _ (float : Float) (json : Json) (decoder : Decoder) (is_valid : Bytes → Bool)
    (pool_nonce : Bytes) (min_difficulty initial_difficulty : ℕ) where
  open float use {F}

  abbrev pub served : List (StratumConn float) → Conns → Served float
  served cs m = record { conns = cs; open_conns = m }

  -- The conns behind a job, without the messages.
  abbrev pub sent_to : Conns × List (StratumConn float × List Message) → Served float
  sent_to r = served (map (λ x. x.0) r.1) r.0

  -- A connection arrives, a job of the daemon is sent, or a connection handles a line.
  pub data Step : Served float → Served float → Type 0 where
    arrives :
        (now : ℕ) (c : StratumConn float) (l : Limiter) (s : Served float)
        → Step s (accept float now c l s).1
    sends :
        (diff : ℕ) (blob : Bytes) (job_ids : ℕ → Bytes) (seconds : ℕ → F) (s : Served float)
        → Step s (sent_to (send_jobs float min_difficulty pool_nonce diff blob job_ids seconds s))
    handles :
        (last : MemJob) (now now_ms : ℕ) (late : JobToSend) (seconds : F) (job_id : Bytes)
        (read : Option Bytes) (written : Bool) (l : Limiter)
        (before behind : List (StratumConn float)) (c : StratumConn float) (m : Conns)
        → Step (served (before ++ (c ∷ behind)) m) (
            served
              (before
                ++ ((handle_stratum float json decoder is_valid pool_nonce min_difficulty
                      initial_difficulty last now now_ms late seconds job_id read written l c).conn
                    ∷ behind))
              m)

  pub data Reach (s : Served float) : Served float → Type 0 where
    here : Reach s s
    next : {t u : Served float} → Reach s t → Step t u → Reach s u

  -- The counter of every IP is the number of its connections, those of other servers included, and
  -- within the limit.
  pub record IsCounted (others : Bytes → ℕ) (s : Served float) : Type 0 where
    pub counted : Counted (ip_of float) (is_alive float) others s.conns s.open_conns
    pub bounded : IsBounded s.open_conns

  module _ (last : MemJob) (now now_ms : ℕ) (late : JobToSend) (seconds : F) (job_id : Bytes) where
    send_stratum_ip :
        (block_diff : ℕ) (blob : Bytes) (c : StratumConn float)
        → (send_stratum float min_difficulty seconds job_id pool_nonce block_diff blob c).0.ip
          ≡ c.ip
    unfolding send_stratum
    send_stratum_ip block_diff blob c = refl

    on_submit_ip :
        (id : ℕ) (params : Bytes) (l : Limiter) (c : StratumConn float)
        → (on_submit float json decoder is_valid pool_nonce min_difficulty initial_difficulty last
            now now_ms late seconds job_id id params l c).conn.ip
          ≡ c.ip
    unfolding on_submit on_block answered resend send_stratum
    on_submit_ip id params l c = ground arith

    on_authorize_ip :
        (id : ℕ) (params : Bytes) (written : Bool) (l : Limiter) (c : StratumConn float)
        → (on_authorize float json decoder is_valid pool_nonce min_difficulty initial_difficulty
            last seconds job_id id params written l c).conn.ip
          ≡ c.ip
    unfolding on_authorize authorize authorized send_stratum
    on_authorize_ip id params written l c = ground arith

    on_request_ip :
        (req : RequestIn) (written : Bool) (l : Limiter) (c : StratumConn float)
        → (on_request float json decoder is_valid pool_nonce min_difficulty initial_difficulty last
            now now_ms late seconds job_id req written l c).conn.ip
          ≡ c.ip
    unfolding on_request on_subscribe
    on_request_ip req written l c =
        ground
          (arith, on_submit_ip req.id req.params l c, on_authorize_ip req.id req.params written l c)

    -- A connection keeps its address.
    handle_stratum_ip :
        (read : Option Bytes) (written : Bool) (l : Limiter) (c : StratumConn float)
        → (handle_stratum float json decoder is_valid pool_nonce min_difficulty initial_difficulty
            last now now_ms late seconds job_id read written l c).conn.ip
          ≡ c.ip
    unfolding handle_stratum
    handle_stratum_ip read written l c = elim (Option-cases (read >>= json.request)) [
      | inl failed_read ↦ ground (arith, failed_read)
      | inr (req, parsed) ↦ ground (arith, parsed, on_request_ip req written l c)
    ]

  sweep-IsBounded :
      (cs : List (StratumConn float)) (m : Conns)
      → IsBounded m
      → IsBounded (sweep (ip_of float) (is_alive float) cs m).1
  unfolding sweep
  sweep-IsBounded [] m h = h
  sweep-IsBounded (c ∷ cs) m h = elim (Bool-cases c.alive) [
    | inl live ↦ rw (live, sweep) (sweep-IsBounded cs m h)
    | inr dead ↦
        rw (dead, sweep) (sweep-IsBounded cs (disconnect c.ip m) (disconnect-IsBounded c.ip m h))
  ]

  listed-send_all :
      (diff : ℕ) (blob : Bytes) (job_ids : ℕ → Bytes) (seconds : ℕ → F) (n : ℕ) (ip : Bytes)
      (cs : List (StratumConn float))
      → listed
          (ip_of float)
          (is_alive float)
          ip
          (map (λ x. x.0) (send_all float min_difficulty pool_nonce diff blob job_ids seconds n cs))
        ≡ listed (ip_of float) (is_alive float) ip cs
  unfolding listed send_all send_stratum
  listed-send_all diff blob job_ids seconds n ip [] = refl
  listed-send_all diff blob job_ids seconds n ip (c ∷ cs) =
      ground (arith, listed-send_all diff blob job_ids seconds (n + 1) ip cs)

  admit-IsBounded :
      (c : StratumConn float) (cs : List (StratumConn float)) (m : Conns)
      → IsBounded m
      → IsBounded (admit (ip_of float) (is_alive float) c cs m).1
  unfolding admit
  admit-IsBounded c cs m h ip = ground (arith, h ip, can_connect-IsBounded c.ip m h ip)

  accept-IsCounted :
      (others : Bytes → ℕ) (now : ℕ) (c : StratumConn float) (l : Limiter) (s : Served float)
      → IsCounted others s
      → IsCounted others (accept float now c l s).1
  unfolding accept
  accept-IsCounted others now c l s h = elim (Bool-cases (can_do_action c.ip 10 now l).1) [
    | inl allowed ↦
        rw (allowed, accept)
          (record {
            counted =
                admit_lem (ip_of float) (is_alive float) others c s.conns s.open_conns h.counted;
            bounded = admit-IsBounded c s.conns s.open_conns h.bounded;
          })
    | inr refused ↦ rw (refused, accept) h
  ]

  send_jobs-IsCounted :
      (others : Bytes → ℕ) (diff : ℕ) (blob : Bytes) (job_ids : ℕ → Bytes) (seconds : ℕ → F)
      (s : Served float)
      → IsCounted others s
      → IsCounted others
          (sent_to (send_jobs float min_difficulty pool_nonce diff blob job_ids seconds s))
  unfolding send_jobs
  send_jobs-IsCounted others diff blob job_ids seconds s h =
      let swept = sweep (ip_of float) (is_alive float) s.conns s.open_conns in
      record {
        counted = λ ip.
            (sweep_lem (ip_of float) (is_alive float) others s.conns s.open_conns h.counted).1 ip
            ∙ ap (λ n. others ip + n)
                (sym (listed-send_all diff blob job_ids seconds 0 ip swept.0));
        bounded = sweep-IsBounded s.conns s.open_conns h.bounded;
      }

  empty-IsCounted : IsCounted (λ ip. 0) (served [] [])
  unfolding listed lookup_or
  empty-IsCounted = record { counted = λ ip. omega arith; bounded = λ ip. omega arith }

  pub Step-IsCounted :
      (others : Bytes → ℕ) {s t : Served float} → Step s t → IsCounted others s → IsCounted others t
  Step-IsCounted others (arrives now c l s) h = accept-IsCounted others now c l s h
  Step-IsCounted others (sends diff blob job_ids seconds s) h =
      send_jobs-IsCounted others diff blob job_ids seconds s h
  Step-IsCounted others
        (handles last now now_ms late seconds job_id read written l before behind c m) h =
      record {
        counted = λ ip.
            h.counted ip
            ∙ ap (λ n. others ip + n)
                (sym (
                  listed-replaced (ip_of float) (is_alive float) ip before behind c _
                    (handle_stratum_ip last now now_ms late seconds job_id read written l c)));
        bounded = h.bounded;
      }

  Reach-IsCounted :
      (others : Bytes → ℕ) {s t : Served float}
      → IsCounted others s
      → Reach s t
      → IsCounted others t
  Reach-IsCounted others h here = h
  Reach-IsCounted others h (next r st) = Step-IsCounted others st (Reach-IsCounted others h r)

  -- In every state that the Stratum server reaches from no connections by whole steps, whatever
  -- connections arrive, lines they send and jobs the daemon sends, and where no other server uses
  -- the counters, the counter of every IP is the number of its connections in the list, and that is at
  -- most MAX_CONNECTIONS_PER_IP + 1.
  pub reached_counts :
      (s : Served float)
      → Reach (served [] []) s
      → (ip : Bytes)
      → (conns_of ip s.open_conns ≡ listed (ip_of float) (is_alive float) ip s.conns)
        × (listed (ip_of float) (is_alive float) ip s.conns ≤ max_connections_per_ip + 1)
  reached_counts s r ip =
      let h = Reach-IsCounted (λ ip. 0) empty-IsCounted r in
      (omega (arith, h.counted ip), omega (arith, h.counted ip, h.bounded ip))
