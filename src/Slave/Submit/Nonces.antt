-- ===== src/Slave/Submit/Nonces.antt =====
-- A nonce counts once for a job.
use xelis_pool.Common.{
  ℕ, zero, suc, ◌≡◌, true, some, List, [], ◌∷◌, ◌++◌, Option-cases, inl, inr, arith, ==_iff,
}
use xelis_pool.Common.Bytes.{Bytes}
use xelis_pool.Pow.BlockMiner.{get_nonce, get_job_id}
use xelis_pool.Slave.Submit.{
  Job, Miner, accepted, duplicate, find_job, has_nonce, with_nonce, record_nonce, against_job,
  check_submit, own_id,
}

has_nonce-append : (n : ℕ) (xs : List ℕ) → has_nonce n (xs ++ (n ∷ [])) ≡ true
unfolding has_nonce
has_nonce-append n [] = ground (arith, ==_iff n n)
has_nonce-append n (x ∷ xs) = ground (arith, has_nonce-append n xs)

-- Recording a nonce hides no job, and the job that was found has the nonce.
find_job-record_nonce :
    (id : Bytes) (n i : ℕ) (js : List Job) (job : Job)
    → find_job id js ≡ some (i, job)
    → find_job id (record_nonce i n js) ≡ some (i, with_nonce n job)
unfolding find_job record_nonce
find_job-record_nonce id n i [] job e = absurd (ground (arith, e))
find_job-record_nonce id n zero (j ∷ js) job e = elim (Option-cases (find_job id js)) [
  | inl f ↦ ground (arith, e, f)
  | inr ((k, x), f) ↦ absurd (ground (arith, e, f))
]
find_job-record_nonce id n (suc i) (j ∷ js) job e = elim (Option-cases (find_job id js)) [
  | inl f ↦ absurd (ground (arith, e, f))
  | inr ((k, x), f) ↦
      let found : find_job id js ≡ some (i, job) = ground (arith, e, f) in
      ground (arith, find_job-record_nonce id n i js job found)
]

-- What an accepted share passed, and that its nonce is refused from then on.
accepted_lem :
    (now i : ℕ) (job job' : Job) (bm bm' : Bytes) (s : Miner)
    → (against_job now i job bm s).1 ≡ accepted job' bm'
    → ((against_job now i job bm s).0 ≡ record s { jobs = record_nonce i (get_nonce bm) s.jobs })
      × ((later : ℕ) (t : Miner)
          → (against_job later i (with_nonce (get_nonce bm) job) bm t).1 ≡ duplicate)
unfolding against_job
accepted_lem now i job job' bm bm' s e = (
  ground (arith, e),
  λ later t. ground (arith, e, has_nonce-append (get_nonce bm) job.submitted_nonces),
)

-- An accepted share that is sent again to the state that it left, at any time, is refused as a
-- duplicate.
pub nonce_counts_once :
    (now later : ℕ) (pool_nonce miner_id bm bm' : Bytes) (s : Miner) (job : Job)
    → (check_submit now pool_nonce miner_id bm s).1 ≡ accepted job bm'
    → (check_submit later pool_nonce miner_id bm (check_submit now pool_nonce miner_id bm s).0).1
      ≡ duplicate
unfolding check_submit
nonce_counts_once now later pool_nonce miner_id bm bm' s job e =
    elim (Option-cases (find_job (get_job_id bm) s.jobs)) [
      | inl f ↦ absurd (ground (arith, e, f))
      | inr ((i, job0), f) ↦
          let own : Bytes = own_id miner_id bm in
          let ok : (against_job now i job0 own s).1 ≡ accepted job bm' = ground (arith, e, f) in
          let (after, again) = accepted_lem now i job0 job own bm' s ok in
          let found = find_job-record_nonce (get_job_id bm) (get_nonce own) i s.jobs job0 f in
          ground (arith, e, f, after, found, again later (against_job now i job0 own s).0)
    ]
