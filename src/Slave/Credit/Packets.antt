-- ===== src/Slave/Credit/Packets.antt =====
-- `handleConnPacket` of cmd/slave/handler.go with the goroutine behind an accepted share, run to its
-- end before the next packet: what the two together do to the address and the difficulty of a miner.
use xelis_pool.Common.{ℕ, ◌-◌, ◌≤◌, ◌≡◌, ◌≢◌, ◌⊎◌, Bool, Option, none, some, List, []}
use xelis_pool.Common.Int.{ℤ, increment}
use xelis_pool.Common.Bytes.{Bytes}
use xelis_pool.Master.Float.{Float}
use xelis_pool.RateLimit.{Limiter}
use xelis_pool.Slave.Submit.{Job}
use xelis_pool.Slave.Packet.{
  Decoder, MemJob, max_start_diff, Client, Handled, accepted_of, handle_conn_packet,
}
use xelis_pool.Slave.Packet.Handshakes.{WithinBounds}
use xelis_pool.Slave.Credit.{
  Effect, Daemon, Hashes, Pace, Rules, smoothing, future_diff, after_submit,
}

module _ (float : Float) where
  open float use {F, of_ℕ, add, mul, div}

  -- A client and its trust score.
  pub record Scored : Type 0 where
    pub client : Client float
    pub score : ℤ

  abbrev pub pace_of : Scored → Pace float
  pace_of s = record {
    score = s.score;
    last_share = s.client.miner.last_share;
    next_diff = s.client.next_diff;
  }

  abbrev pub with_pace : Pace float → Client float → Scored
  with_pace p c = record {
    client = record c {
      miner = record (c.miner) { last_share = p.last_share };
      next_diff = p.next_diff;
    };
    score = p.score;
  }

  module _ (decoder : Decoder) (is_valid : Bytes → Bool) (last : MemJob) (rules : Rules float)
      (d : Daemon) (hashes : Hashes) (now now_ms : ℕ) (ip pool_nonce miner_id : Bytes) (seconds : F)
      (drawn : Bool) where
    -- The goroutine of an accepted share; there is none behind another answer.
    unfoldable pub verified : Option (Job × Bytes) → Option Bytes → Scored → Scored × List Effect
    unfolding after_submit
    verified none claimed s = (s, [])
    verified (some (job, bm)) claimed s =
        let o =
          after_submit float rules d now_ms seconds drawn s.client.wallet s.client.miner.jobs job bm
            claimed hashes last.algorithm (pace_of s) in
        (with_pace o.pace s.client, o.effects)

    unfoldable pub packet_verified : ℕ → Bytes → Limiter → Scored → Scored × List Effect
    unfolding verified handle_conn_packet
    packet_verified received str l s =
        let r =
          handle_conn_packet float decoder is_valid rules.min_difficulty last now now_ms ip
            pool_nonce miner_id received str l s.client in
        verified (accepted_of r.reply) r.work (record { client = r.client; score = s.score })

    -- The mean that an accepted share sets: the difficulty of its hashrate, with the coefficient of
    -- the new trust score. It has no upper bound.
    abbrev mean_of : Job → ℤ → F → F
    mean_of job score before =
        div
          (add (mul before (of_ℕ (smoothing (increment score) - 1)))
            (future_diff float rules seconds job))
          (of_ℕ (smoothing (increment score)))

    abbrev pub IsMean : Job → F → ℤ → F → Type 0
    IsMean job before score after = after ≡ mean_of job score before

    module _ (hmin : rules.min_difficulty ≤ max_start_diff) (received : ℕ) (str : Bytes)
        (l : Limiter) (s : Scored) where
      abbrev handled : Handled float
      handled =
          handle_conn_packet float decoder is_valid rules.min_difficulty last now now_ms ip
            pool_nonce miner_id received str l s.client

      -- The packet is a share that passes the checks before its verification, and its job sets the
      -- mean.
      abbrev pub IsAveraged : F → Type 0
      IsAveraged after =
          ((job : Job) × (bm : Bytes) × (accepted_of handled.reply ≡ some (job, bm))
            × IsMean job s.client.next_diff s.score after)

      -- What is left of the client, of its score and of what is sent.
      abbrev pub Keeps : Scored × List Effect → Type 0
      Keeps r =
          (WithinBounds float decoder is_valid rules.min_difficulty last hmin s.client.next_diff
              r.0.client.next_diff
            ⊎ IsAveraged r.0.client.next_diff)
          × (received ≢ 1
              → (r.0.client.wallet ≡ s.client.wallet)
                × ((r.0.client.next_diff ≡ s.client.next_diff) ⊎ IsAveraged r.0.client.next_diff))
          × (received ≡ 1
              → (r.0.client.miner ≡ s.client.miner) × (r.0.score ≡ s.score) × (r.1 ≡ []))
