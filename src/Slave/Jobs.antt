-- ===== src/Slave/Jobs.antt =====
-- The jobs of a miner: `CData` of xatum/server/server.go, and `SendJob` of cmd/slave/daemon_conn.go,
-- `SendStratumJob` of cmd/slave/stratum.go and `SendJobGetwork` of cmd/slave/getwork.go.
pub mod Window
pub mod Blobs
pub mod Honest
use xelis_pool.Common.{
  ℕ, ◌-◌, ◌≡◌, Option, none, some, List, [], ◌∷◌, ◌++◌, length, drop, replicate, ltb, if◌then◌else◌,
  false,
}
use xelis_pool.Common.Bytes.{Bytes}
use xelis_pool.Pow.BlockMiner.{
  blockminer_length, set_from, set_extra_nonce, set_pool_nonce, set_job_id, get_job_id,
  get_workhash, get_timestamp,
}
use xelis_pool.Pow.Algorithm.{convert_algorithm_to_getwork}
use xelis_pool.Slave.Submit.{Job, Miner}

abbrev pub max_past_jobs : ℕ
max_past_jobs = 6

-- `NewCData`: no jobs yet; `now` is the clock.
unfoldable pub new_miner : ℕ → Miner
new_miner now = record { jobs = []; last_share = now; locked = false }

-- `ConnJob{}`
abbrev pub no_job : Job
no_job = record {
  diff = 0;
  chain_diff = 0;
  block_miner = replicate blockminer_length 0;
  submitted_nonces = [];
}

unfoldable pub last_job : List Job → Job
last_job [] = no_job
last_job (j ∷ []) = j
last_job (j ∷ k ∷ js) = last_job (k ∷ js)

-- `Jobs = append(Jobs, job)`, and the first one goes when there are too many.
unfoldable pub add_job : Job → List Job → List Job
add_job j js =
    let all = js ++ (j ∷ []) in if ltb max_past_jobs (length all) then drop 1 all else all

-- The authorization of a Stratum miner appends a job with its difficulty that is not sent, and drops
-- none.
unfoldable pub authorized_jobs : ℕ → List Job → List Job
authorized_jobs diff js = js ++ (record no_job { diff = diff } ∷ [])

-- `next_diff` is `uint64(v.CData.GetNextDiff())`.
unfoldable pub capped : ℕ → ℕ → ℕ
capped next_diff block_diff = if ltb block_diff next_diff then block_diff else next_diff

unfoldable pub new_job : ℕ → ℕ → Bytes → Job
unfolding capped
new_job next_diff block_diff blob = record {
  diff = capped next_diff block_diff;
  chain_diff = block_diff;
  block_miner = blob;
  submitted_nonces = [];
}

-- `GenExtraNonce`: 16 random bytes, the pool nonce, and zeros.
unfoldable pub gen_extra_nonce : Bytes → Bytes → Bytes
gen_extra_nonce random pool_nonce = set_from 16 pool_nonce (set_from 0 random (replicate 32 0))

abbrev pub send_to : Miner → Job → Miner
send_to s j = record s { jobs = add_job j s.jobs }

-- `xatum.S2C_Job`
pub record XatumJob : Type 0 where
  pub diff : ℕ
  pub blob : Bytes

unfoldable pub send_job : ℕ → Bytes → Bytes → ℕ → Bytes → Miner → Miner × XatumJob
unfolding new_job gen_extra_nonce add_job
send_job next_diff random pool_nonce block_diff blob s =
    let blob' = set_extra_nonce (gen_extra_nonce random pool_nonce) blob in
    (
      send_to s (new_job next_diff block_diff blob'),
      record { diff = capped next_diff block_diff; blob = blob' },
    )

-- The two requests of a Stratum job, without their ids: `mining.set_difficulty`, and `mining.notify`
-- with the job id, the time and the work hash.
pub data Request : Type 0 where
  set_difficulty : ℕ → Request
  notify : Bytes → ℕ → Bytes → Request

unfoldable pub stratum_blob : Bytes → Bytes → Bytes → Bytes
stratum_blob pool_nonce job_id blob =
    set_job_id job_id (set_pool_nonce pool_nonce (set_extra_nonce (replicate 32 0) blob))

unfoldable pub send_stratum_job : ℕ → Bytes → Bytes → ℕ → Bytes → Miner → Miner × List Request
unfolding new_job stratum_blob add_job
send_stratum_job next_diff job_id pool_nonce block_diff blob s =
    let blob' = stratum_blob pool_nonce job_id blob in
    (
      send_to s (new_job next_diff block_diff blob'),
      set_difficulty (capped next_diff block_diff)
          ∷ notify (get_job_id blob') (get_timestamp blob') (get_workhash blob')
          ∷ [],
    )

-- The `new_job` message of a getwork miner: the difficulty, the block and the algorithm. An unknown
-- algorithm is an error before any change.
pub record GetworkJob : Type 0 where
  pub difficulty : ℕ
  pub miner_work : Bytes
  pub algorithm : Bytes

unfoldable pub send_job_getwork :
    ℕ → Bytes → Bytes → ℕ → Bytes → Bytes → Miner → Miner × Option GetworkJob
unfolding send_job
send_job_getwork next_diff random pool_nonce block_diff blob algorithm s =
    elim (convert_algorithm_to_getwork algorithm) [
      | none ↦ (s, none)
      | some name ↦
          let (s', sent) = send_job next_diff random pool_nonce block_diff blob s in
          (s', some (record { difficulty = sent.diff; miner_work = sent.blob; algorithm = name }))
    ]
