-- ===== src/Slave/Submit.antt =====
-- The submit packet of `handleConnPacket` in cmd/slave/handler.go: the checks of a share.
pub mod Nonces
pub mod Proofs
use xelis_pool.Common.{
  ℕ, zero, suc, ◌*◌, ◌+◌, ◌%◌, ◌^◌, Bool, true, false, ◌&&◌, ◌||◌, not, Option, none, some, List,
  [], ◌∷◌, ◌++◌, length, replicate, ltb, ◌==◌, if◌then◌else◌,
}
use xelis_pool.Common.Bytes.{Bytes, ◌=?◌}
use xelis_pool.Pow.BlockMiner.{
  blockminer_length, get_workhash, get_publickey, get_nonce, get_timestamp, get_job_id, set_job_id,
  get_pool_nonce,
}
use xelis_pool.Pow.Target.{check_diff}

-- `ConnJob` of xatum/server/server.go.
pub record Job : Type 0 where
  pub diff : ℕ
  pub chain_diff : ℕ
  pub block_miner : Bytes
  pub submitted_nonces : List ℕ

-- The parts of `CData` that the checks read or write; `locked` is its mutex.
pub record Miner : Type 0 where
  pub jobs : List Job
  pub last_share : ℕ
  pub locked : Bool

-- The answer to a submit packet; an accepted one goes on with the job and the block.
pub data Answer : Type 0 where
  bad_length bad_pool_nonce blank_job_id stale other_block duplicate bad_timestamp : Answer
  accepted : Job → Bytes → Answer

abbrev pub blank_id : Bytes
blank_id = replicate 16 0

-- The last job with the id, and its index.
unfoldable pub find_job : Bytes → List Job → Option (ℕ × Job)
find_job id [] = none
find_job id (j ∷ js) = elim (find_job id js) [
  | some (i, x) ↦ some (suc i, x)
  | none ↦ if id =? get_job_id j.block_miner then some (0, j) else none
]

unfoldable pub has_nonce : ℕ → List ℕ → Bool
has_nonce n [] = false
has_nonce n (x ∷ xs) = x == n || has_nonce n xs

abbrev pub with_nonce : ℕ → Job → Job
with_nonce n j = record j { submitted_nonces = j.submitted_nonces ++ (n ∷ []) }

-- `minerJob.SubmittedNonces = append(...)` through the pointer to the job at an index.
unfoldable pub record_nonce : ℕ → ℕ → List Job → List Job
record_nonce i n [] = []
record_nonce zero n (j ∷ js) = with_nonce n j ∷ js
record_nonce (suc i) n (j ∷ js) = j ∷ record_nonce i n js

abbrev pub in_future : ℕ → Bytes → Bool
in_future now bm = ltb ((now + 10 * 1000) % 2 ^ 64) (get_timestamp bm)

-- The checks against the job at the index `i`; `now` is in milliseconds.
unfoldable pub against_job : ℕ → ℕ → Job → Bytes → Miner → Miner × Answer
unfolding has_nonce record_nonce
against_job now i job bm s =
    let s' : Miner = record s { jobs = record_nonce i (get_nonce bm) s.jobs } in
    if get_workhash bm =? get_workhash job.block_miner
      && get_publickey bm =? get_publickey job.block_miner
    then (if has_nonce (get_nonce bm) job.submitted_nonces
        then (s, duplicate)
        else if ltb (get_timestamp bm) (get_timestamp job.block_miner) || in_future now bm
        then (s', bad_timestamp)
        else (s', accepted (with_nonce (get_nonce bm) job) bm))
    else (s, other_block)

-- `minerId`, unless it is blank, takes the place of the job id.
unfoldable pub own_id : Bytes → Bytes → Bytes
own_id miner_id bm = if miner_id =? blank_id then bm else set_job_id miner_id bm

-- The checks behind the limit of the rate and the parsing of the packet. Two of the refusals leave
-- the mutex locked.
unfoldable pub check_submit : ℕ → Bytes → Bytes → Bytes → Miner → Miner × Answer
unfolding against_job find_job own_id
check_submit now pool_nonce miner_id bm s =
    if length bm == blockminer_length
    then (if get_pool_nonce bm =? pool_nonce
        then (if get_job_id bm =? blank_id
            then (record s { locked = true }, blank_job_id)
            else elim (find_job (get_job_id bm) s.jobs) [
              | none ↦ (record s { last_share = now }, stale)
              | some (i, job) ↦ against_job now i job (own_id miner_id bm) s
            ])
        else (record s { locked = true }, bad_pool_nonce))
    else (s, bad_length)

-- What the verification of an accepted share comes to: nothing, a loss of the trust score, or a
-- valid share that finds a block or not.
pub data Verdict : Type 0 where
  dropped distrusted : Verdict
  valid : Bool → Verdict

abbrev pub blank_hash : Bytes
blank_hash = replicate 32 0

-- `hashed` is the computed hash of the block, `none` an error.
unfoldable pub by_computed : Job → Option Bytes → Verdict
by_computed job none = dropped
by_computed job (some pow) =
    if pow =? blank_hash
    then dropped
    else if check_diff pow job.diff
    then valid (check_diff pow job.chain_diff)
    else distrusted

-- A claimed hash is compared with the computed one where `must_check` says so.
unfoldable pub compared : Bool → Bytes → Bool → Option Bytes → Verdict
compared false h finds hashed = valid finds
compared true h finds none = dropped
compared true h finds (some pow) = if pow =? h then valid finds else distrusted

-- `must_check`: the score is below the trust score, or the random draw asks for it. With no hash of
-- 32 bytes in the packet (`none`) the computed hash is used.
unfoldable pub verify_share : Job → Bool → Option Bytes → Option Bytes → Verdict
unfolding by_computed compared
verify_share job must_check none hashed = by_computed job hashed
verify_share job must_check (some h) hashed =
    if h =? blank_hash
    then dropped
    else if check_diff h job.diff
    then compared (check_diff h job.chain_diff || must_check) h (check_diff h job.chain_diff) hashed
    else dropped
