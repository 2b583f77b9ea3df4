-- ===== src/Slave/Jobs/Honest.antt =====
-- An honest miner's share is accepted: a share made from the last job that was sent, with a nonce
-- and a timestamp of the miner's.
use xelis_pool.Common.{
  ℕ, suc, ◌+◌, ◌*◌, ◌%◌, ◌^◌, ◌≤◌, ◌≡◌, ◌≢◌, ◌∙◌, refl, sym, ap, inl, inr, some, List, [], ◌∷◌,
  ◌++◌, length, arith, ltb, Bool-cases,
}
use xelis_pool.Common.Bytes.{Bytes, IsU64, =?_iff, =?_refl}
use xelis_pool.Pow.BlockMiner.{
  set_extra_nonce, get_workhash, get_timestamp, get_nonce, get_publickey, get_job_id,
  get_pool_nonce,
}
use xelis_pool.Pow.BlockMiner.Fields.{IsBlock}
use xelis_pool.Slave.Submit.{
  Job, Miner, accepted, blank_id, find_job, with_nonce, against_job, own_id, check_submit,
}
use xelis_pool.Slave.Jobs.Blobs.{SameJob, mined, mined_fields, own_fields, xatum_blob_fields}
use xelis_pool.Slave.Jobs.{capped, add_job, new_job, send_to, gen_extra_nonce, send_job}

find_job_last :
    (id : Bytes) (js : List Job) (j : Job)
    → get_job_id j.block_miner ≡ id
    → find_job id (js ++ (j ∷ [])) ≡ some (length js, j)
unfolding find_job
find_job_last id [] j e = ground (arith, =?_iff id (get_job_id j.block_miner))
find_job_last id (x ∷ js) j e = rw (find_job_last id js j e, find_job)

-- The job that was added is found by its id.
pub find_job-add_job :
    (id : Bytes) (js : List Job) (j : Job)
    → get_job_id j.block_miner ≡ id
    → (i : ℕ) × (find_job id (add_job j js) ≡ some (i, j))
unfolding add_job
find_job-add_job id [] j e = (0, find_job_last id [] j e)
find_job-add_job id (x ∷ js) j e = elim (Bool-cases (ltb 6 (length (x ∷ (js ++ (j ∷ [])))))) [
  | inl full ↦ (length js, rw full (find_job_last id js j e))
  | inr room ↦ (suc (length js), rw room (find_job_last id (x ∷ js) j e))
]

-- A fresh job takes a share that agrees with it and has a timestamp from the job's to ten seconds
-- after the clock.
against_fresh :
    (now i next_diff block_diff : ℕ) (jb bm : Bytes) (s : Miner)
    → SameJob bm jb
    → get_timestamp jb ≤ get_timestamp bm
    → get_timestamp bm ≤ (now + 10 * 1000) % 2 ^ 64
    → (against_job now i (new_job next_diff block_diff jb) bm s).1
      ≡ accepted (with_nonce (get_nonce bm) (new_job next_diff block_diff jb)) bm
unfolding against_job new_job
against_fresh now i next_diff block_diff jb bm s h past soon = ground (
  arith,
  h.workhash,
  h.publickey,
  =?_iff (get_workhash bm) (get_workhash jb),
  =?_iff (get_publickey bm) (get_publickey jb),
)

-- Past the checks of the block alone, the share is checked against the job with its id.
reaches_job :
    (now i : ℕ) (pool_nonce miner_id bm : Bytes) (j : Job) (s : Miner)
    → IsBlock bm
    → get_pool_nonce bm ≡ pool_nonce
    → get_job_id bm ≢ blank_id
    → find_job (get_job_id bm) s.jobs ≡ some (i, j)
    → check_submit now pool_nonce miner_id bm s ≡ against_job now i j (own_id miner_id bm) s
unfolding check_submit
reaches_job now i pool_nonce miner_id bm j s size pool id found = ground (
  arith,
  found,
  =?_iff (get_pool_nonce bm) pool_nonce,
  =?_iff (get_job_id bm) blank_id,
  absurd_id,
)
  where
    absurd_id : get_job_id bm ≡ blank_id → ⊥
    absurd_id p = id p

-- A share that agrees with the job that was sent last, and has a timestamp from the job's to ten
-- seconds after the clock, is accepted.
pub share_accepted :
    (now next_diff block_diff : ℕ) (pool_nonce miner_id jb bm : Bytes) (s : Miner)
    → length miner_id ≡ 16
    → SameJob bm jb
    → get_pool_nonce bm ≡ pool_nonce
    → get_job_id bm ≡ get_job_id jb
    → get_job_id bm ≢ blank_id
    → get_timestamp jb ≤ get_timestamp bm
    → get_timestamp bm ≤ (now + 10 * 1000) % 2 ^ 64
    → (check_submit now pool_nonce miner_id bm (send_to s (new_job next_diff block_diff jb))).1
      ≡ accepted
          (with_nonce (get_nonce (own_id miner_id bm)) (new_job next_diff block_diff jb))
          (own_id miner_id bm)
share_accepted now next_diff block_diff pool_nonce miner_id jb bm s hm same pool id fresh past
      soon =
    let j = new_job next_diff block_diff jb in
    let (own, own_time) = own_fields miner_id bm jb hm same in
    let (i, found) = find_job-add_job (get_job_id bm) s.jobs j (unfold new_job in sym id) in
    ap (λ r. r.1)
      (reaches_job now i pool_nonce miner_id bm j (send_to s j) same.block pool fresh found)
    ∙ against_fresh now i next_diff block_diff jb (own_id miner_id bm) (send_to s j) own
        (omega (arith, own_time)) (omega (arith, own_time))

own_id-blank : (bm : Bytes) → own_id blank_id bm ≡ bm
unfolding own_id
own_id-blank bm = rw (=?_refl blank_id)

module _ (now next_diff block_diff t n : ℕ) (random pool_nonce blob : Bytes) (s : Miner) where
  -- The block that the miner is sent, and the share that it makes.
  abbrev pub sent : Bytes
  sent = (send_job next_diff random pool_nonce block_diff blob s).1.blob

  abbrev pub after : Miner
  after = (send_job next_diff random pool_nonce block_diff blob s).0

  -- An honest share is accepted, from a Xatum or getwork job: where the miner changes only the
  -- timestamp and the nonce of the block that it was sent, to uint64 values and a timestamp from the
  -- chain's block to ten seconds after the clock, its submit packet passes all checks and goes on
  -- with the block as it is and the job's difficulty. The chain's block has 112 bytes, the random
  -- id 16 and is not zero, the pool nonce has 8.
  pub send_job_accepted :
      length random ≡ 16
      → length pool_nonce ≡ 8
      → IsBlock blob
      → random ≢ blank_id
      → IsU64 t
      → IsU64 n
      → get_timestamp blob ≤ t
      → t ≤ (now + 10 * 1000) % 2 ^ 64
      → (job : Job) × ((check_submit now pool_nonce blank_id (mined t n sent) after).1
          ≡ accepted job (mined t n sent))
        × (job.diff ≡ capped next_diff block_diff)
        × (job.chain_diff ≡ block_diff)
  unfolding send_job
  send_job_accepted hr hp hb fresh ht hn past soon =
      let jb = set_extra_nonce (gen_extra_nonce random pool_nonce) blob in
      let (size, id, pool, time) = xatum_blob_fields random pool_nonce hr hp blob hb jb refl in
      let bm = mined t n jb in
      let (same, bm_time, bm_id, bm_pool) = mined_fields t n jb size ht hn in
      (
        with_nonce (get_nonce (own_id blank_id bm)) (new_job next_diff block_diff jb),
        share_accepted now next_diff block_diff pool_nonce blank_id jb bm s refl same
              (bm_pool ∙ pool) bm_id (λ p. fresh (sym id ∙ sym bm_id ∙ p))
              (omega (arith, time, bm_time)) (omega (arith, bm_time))
            ∙ ap
                (accepted
                  (with_nonce (get_nonce (own_id blank_id bm)) (new_job next_diff block_diff jb)))
                (own_id-blank bm),
        refl,
        refl,
      )
