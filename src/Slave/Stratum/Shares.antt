-- ===== src/Slave/Stratum/Shares.antt =====
-- Shares of Stratum miners: an honest one is accepted, a stale one stops its connection and the
-- pinger.
use xelis_pool.Common.{
  if-false, ℕ, ◌≡◌, ◌∙◌, refl, Bool, true, false, Option, none, some, List, [], ◌∷◌, ◌++◌,
  replicate, ◌==◌,
}
use xelis_pool.Common.Options.{◌>>=◌}
use xelis_pool.Common.Bytes.{Bytes, codes, be_value, ◌=?◌}
use xelis_pool.RateLimit.{Limiter}
use xelis_pool.Pow.BlockMiner.{blockminer_length, get_timestamp}
use xelis_pool.Slave.Submit.{find_job}
use xelis_pool.Slave.Packet.{Decoder, MemJob, JobToSend}
use xelis_pool.Slave.Stratum.{
  Turn, turn, RequestIn, Json, response, failed, running, blocked, share_block, submit_params,
  StratumConn, with_lock, on_submit, on_request, handle_stratum,
}
use xelis_pool.Slave.Stratum.Server.{ping_all, ping_all-locked}
use xelis_pool.Master.Float.{Float}

module _ (float : Float) (json : Json) (decoder : Decoder) (is_valid : Bytes → Bool)
    (pool_nonce : Bytes) (min_difficulty initial_difficulty : ℕ) (last : MemJob) (now now_ms : ℕ)
    (late : JobToSend) (seconds : float.F) (job_id : Bytes) where
  abbrev round : Option Bytes → Bool → Limiter → StratumConn float → Turn float
  round =
      handle_stratum float json decoder is_valid pool_nonce min_difficulty initial_difficulty last
        now now_ms late seconds job_id

  round-locked :
      (read : Option Bytes) (written : Bool) (l : Limiter) (c : StratumConn float)
      → c.client.miner.locked ≡ true
      → round read written l c ≡ turn float c l [] blocked
  unfolding handle_stratum
  round-locked read written l c h = rw (h, handle_stratum) refl

  blank_time : (get_timestamp (replicate blockminer_length 0) == 0) ≡ true
  unfolding get_timestamp be_value
  blank_time = refl

  on_request-submit :
      (req : RequestIn) (written : Bool) (l : Limiter) (c : StratumConn float)
      → req.method ≡ codes "mining.submit"
      → on_request float json decoder is_valid pool_nonce min_difficulty initial_difficulty last now
          now_ms late seconds job_id req written l c
        ≡ on_submit float json decoder is_valid pool_nonce min_difficulty initial_difficulty last
            now now_ms late seconds job_id req.id req.params l c
  unfolding on_request ◌=?◌
  on_request-submit req written l c e = rw (e, on_request) refl

  -- A line that is a share is handled by `on_submit`.
  pub round-submit :
      (line : Bytes) (req : RequestIn) (written : Bool) (l : Limiter) (c : StratumConn float)
      → c.client.miner.locked ≡ false
      → json.request line ≡ some req
      → req.method ≡ codes "mining.submit"
      → round (some line) written l c
        ≡ on_submit float json decoder is_valid pool_nonce min_difficulty initial_difficulty last
            now now_ms late seconds job_id req.id req.params l c
  unfolding handle_stratum
  round-submit line req written l c free parsed method =
      if-false _ _ free ∙ rw parsed (on_request-submit req written l c method)

  on_submit-stale :
      (id : ℕ) (params share_id nonce : Bytes) (l : Limiter) (c : StratumConn float)
      → (json.strings params >>= submit_params) ≡ some (share_id, nonce)
      → find_job share_id c.client.miner.jobs ≡ none
      → on_submit float json decoder is_valid pool_nonce min_difficulty initial_difficulty last now
          now_ms late seconds job_id id params l c
        ≡ turn float (with_lock float true c) l (response id (failed 21) ∷ []) running
  unfolding on_submit share_block
  on_submit-stale id params share_id nonce l c e gone =
      rw (e, on_submit) (rw (gone, share_block) (rw blank_time refl))

  -- One share for a job that the connection no longer has stops it for good: a `mining.submit`
  -- whose parameters can be read and whose job id no job has, to a connection that does not hold
  -- its mutex, is answered as stale with the code 21, but the connection then holds its mutex, so
  -- that whatever arrives next is not handled, the connection stays as it is, alive where it was,
  -- and no ping of a server that lists it comes to an end.
  pub stale_share_blocks :
      (line : Bytes) (req : RequestIn) (share_id nonce : Bytes) (written : Bool) (l : Limiter)
      (c : StratumConn float)
      → c.client.miner.locked ≡ false
      → json.request line ≡ some req
      → req.method ≡ codes "mining.submit"
      → (json.strings req.params >>= submit_params) ≡ some (share_id, nonce)
      → find_job share_id c.client.miner.jobs ≡ none
      → let stuck = with_lock float true c in
        (round (some line) written l c
          ≡ turn float stuck l (response req.id (failed 21) ∷ []) running)
        × ((read : Option Bytes) (w : Bool) (l' : Limiter)
            → round read w l' stuck ≡ turn float stuck l' [] blocked)
        × ((before behind : List (StratumConn float))
            → ping_all float (before ++ (stuck ∷ behind)) ≡ none)
  stale_share_blocks line req share_id nonce written l c free parsed method params gone = (
    round-submit line req written l c free parsed method
        ∙ on_submit-stale req.id req.params share_id nonce l c params gone,
    λ read w l'. round-locked read w l' (with_lock float true c) refl,
    λ before behind. ping_all-locked float before behind (with_lock float true c) refl,
  )
