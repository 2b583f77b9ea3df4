-- ===== src/Slave/Getwork/Counts.antt =====
-- The counts per IP that cmd/slave/getwork.go keeps, next to those of other servers.
use xelis_pool.Common.{
  ℕ, ◌+◌, ◌-◌, ◌%◌, ◌^◌, ◌≤◌, ◌≡◌, refl, ap, Bool, Option, none, some, List, [], ◌∷◌, arith,
  Option-cases, inl, inr, true,
}
use xelis_pool.Common.Options.{◌>>=◌}
use xelis_pool.Common.Bytes.{Bytes, =?_iff}
use xelis_pool.Common.Assoc.{lookup_or-insert}
use xelis_pool.RateLimit.{Conns, Limiter, conns_of, can_connect, disconnect}
use xelis_pool.RateLimit.Connections.{IsBounded, can_connect-IsBounded, disconnect-IsBounded}
use xelis_pool.Slave.Packet.{Decoder, MemJob, JobToSend}
use xelis_pool.Slave.Sweep.{counted, sweep, listed, listed-append}
use xelis_pool.Slave.Getwork.{
  GetworkConn, miner_work, miner_blob, join, send_getwork, start, send_all, send_getwork_jobs,
  resend, answered, on_blob, ws_message,
}
use xelis_pool.Slave.Getwork
use xelis_pool.Master.Float.{Float}

module _ (float : Float) where
  open float use {F}

  abbrev pub gw_listed : Bytes → List (GetworkConn float) → ℕ
  gw_listed = listed (Getwork.ip_of float) (Getwork.is_alive float)

  module _ (others : Bytes → ℕ) where
    pub join-covered :
        (is_valid : Bytes → Bool) (min_difficulty now now_ms : ℕ) (ip addr : Bytes) (l : Limiter)
        (s : Getwork.Served float) (j : Bytes)
        → others j + gw_listed j s.conns ≤ conns_of j s.open_conns
        → let t = (join float is_valid min_difficulty now now_ms ip addr l s).0.1 in
          others j + gw_listed j t.conns ≤ conns_of j t.open_conns
    unfolding join can_connect listed
    join-covered is_valid min_difficulty now now_ms ip addr l s j h = ground (
      arith,
      =?_iff ip j,
      cong,
      listed-append (Getwork.ip_of float) (Getwork.is_alive float) j s.conns (
          Getwork.new_conn float now_ms ip (Getwork.parse_path min_difficulty addr).0
            (Getwork.parse_path min_difficulty addr).1
          ∷ []),
      lookup_or-insert 0 ip j ((conns_of ip s.open_conns + 1) % 2 ^ 32) s.open_conns,
    )
      where
        cong : ip ≡ j → conns_of ip s.open_conns ≡ conns_of j s.open_conns
        cong p = ap (λ k. conns_of k s.open_conns) p

    pub join-IsBounded :
        (is_valid : Bytes → Bool) (min_difficulty now now_ms : ℕ) (ip addr : Bytes) (l : Limiter)
        (s : Getwork.Served float)
        → IsBounded s.open_conns
        → IsBounded (join float is_valid min_difficulty now now_ms ip addr l s).0.1.open_conns
    unfolding join
    join-IsBounded is_valid min_difficulty now now_ms ip addr l s h j =
        ground (arith, h j, can_connect-IsBounded ip s.open_conns h j)

  sweep-IsBounded :
      (cs : List (GetworkConn float)) (m : Conns)
      → IsBounded m
      → IsBounded (sweep (Getwork.ip_of float) (Getwork.is_alive float) cs m).1
  unfolding sweep
  sweep-IsBounded [] m h j = h j
  sweep-IsBounded (c ∷ cs) m h j = ground (
    arith,
    sweep-IsBounded cs m h j,
    sweep-IsBounded cs (disconnect c.ip m) (disconnect-IsBounded c.ip m h) j,
  )

  module _ (min_difficulty : ℕ) (pool_nonce : Bytes) where
    send_getwork_ip :
        (seconds : F) (random : Bytes) (diff : ℕ) (blob algorithm : Bytes) (c : GetworkConn float)
        → (send_getwork float min_difficulty pool_nonce seconds random diff blob algorithm c).0.ip
          ≡ c.ip
    unfolding send_getwork
    send_getwork_ip seconds random diff blob algorithm c = ground arith

    pub start_ip :
        (seconds : F) (random : Bytes) (upgraded : Bool) (last : MemJob) (l : Limiter)
        (c : GetworkConn float)
        → (start float min_difficulty pool_nonce seconds random upgraded last l c).conn.ip ≡ c.ip
    unfolding start
    start_ip seconds random upgraded last l c = ground (
      arith,
      send_getwork_ip seconds random last.diff last.blob last.algorithm
          (record c { connected = true }),
    )

    listed-send_all :
        (seconds : F) (random : ℕ → Bytes) (written : ℕ → Bool) (diff : ℕ)
        (blob algorithm ip : Bytes) (n : ℕ) (cs : List (GetworkConn float))
        → gw_listed ip (
            send_all float min_difficulty pool_nonce seconds random written diff blob algorithm n
              cs)
          ≡ gw_listed ip cs
    unfolding send_all listed
    listed-send_all seconds random written diff blob algorithm ip n [] = refl
    listed-send_all seconds random written diff blob algorithm ip n (c ∷ cs) = ground (
      arith,
      send_getwork_ip seconds (random n) diff blob algorithm c,
      listed-send_all seconds random written diff blob algorithm ip (n + 1) cs,
    )

    module _ (seconds : F) (random : ℕ → Bytes) (written : ℕ → Bool) (diff : ℕ)
        (blob algorithm : Bytes) (s : Getwork.Served float) where
      abbrev sent : Getwork.Served float
      sent =
          send_getwork_jobs float min_difficulty pool_nonce seconds random written diff blob
            algorithm s

      pub send_getwork_jobs-covered :
          (others : Bytes → ℕ) (ip : Bytes)
          → others ip + gw_listed ip s.conns ≤ conns_of ip s.open_conns
          → others ip + gw_listed ip sent.conns ≤ conns_of ip sent.open_conns
      unfolding send_getwork_jobs
      send_getwork_jobs-covered others ip h =
          let (cs, m) = sweep (Getwork.ip_of float) (Getwork.is_alive float) s.conns s.open_conns in
          omega (
            arith,
            h,
            listed-send_all seconds random written diff blob algorithm ip 0 cs,
            counted (Getwork.ip_of float) (Getwork.is_alive float) ip
                (conns_of ip s.open_conns - gw_listed ip s.conns) s.conns s.open_conns
                (omega (arith, h)),
          )

      pub send_getwork_jobs-IsBounded : IsBounded s.open_conns → IsBounded sent.open_conns
      unfolding send_getwork_jobs
      send_getwork_jobs-IsBounded h = sweep-IsBounded s.conns s.open_conns h

    module _ (json : Getwork.Json) (decoder : Decoder) (is_valid : Bytes → Bool) (last : MemJob)
        (first_algorithm : Bytes) (now now_ms : ℕ) (late : JobToSend) where
      on_blob_ip :
          (seconds : F) (random : Bytes) (received : ℕ) (written : Bool) (bm : Bytes) (l : Limiter)
          (c : GetworkConn float)
          → (on_blob float min_difficulty pool_nonce json decoder is_valid last first_algorithm now
              now_ms late seconds random received written bm l c).conn.ip
            ≡ c.ip
      unfolding on_blob answered resend send_getwork
      on_blob_ip seconds random received written bm l c = ground arith

      pub ws_message_ip :
          (seconds : F) (random : Bytes) (received : ℕ) (read : Option Bytes) (written : Bool)
          (l : Limiter) (c : GetworkConn float)
          → (ws_message float min_difficulty pool_nonce json decoder is_valid last first_algorithm
              now now_ms late seconds random received read written l c).conn.ip
            ≡ c.ip
      unfolding ws_message
      ws_message_ip seconds random received none written l c = refl
      ws_message_ip seconds random received (some message) written l c =
          elim (Option-cases (miner_work (json.fields message))) [
            | inl broken ↦ rw (broken, ws_message) refl
            | inr (w, parsed) ↦ elim (Option-cases (w >>= miner_blob)) [
              | inl nothing ↦ rw (parsed, ws_message) (rw nothing refl)
              | inr (bm, found) ↦
                  rw (parsed, ws_message)
                    (rw found (on_blob_ip seconds random received written bm l c))
            ]
          ]
