-- ===== src/Slave/Jobs/Blobs.antt =====
-- The blocks of jobs and of the shares made from them: their ids and what they agree on.
use xelis_pool.Common.{
  zero, ℕ, suc, ◌+◌, ◌≤◌, ◌≡◌, ◌∙◌, refl, sym, ap, inl, inr, List, [], ◌∷◌, length, drop, take,
  drop-drop, arith, Bool-cases, replicate,
}
use xelis_pool.Common.Bytes.{Bytes, IsU64, be_bytes, length-be_bytes, ◌=?◌}
use xelis_pool.Pow.BlockMiner.{
  set_from, set_timestamp, set_nonce, set_extra_nonce, set_pool_nonce, get_extra_nonce,
  get_workhash, get_timestamp, get_publickey, get_job_id, get_pool_nonce,
}
use xelis_pool.Pow.BlockMiner.Slices.{slice-set_from_ne, slice-set_from_self, length-set_from}
use xelis_pool.Pow.BlockMiner.Fields.{
  IsBlock, set_timestamp_fields, set_nonce_fields, set_extra_nonce_fields, set_job_id_fields,
  set_pool_nonce_fields,
}
use xelis_pool.Slave.Submit.{blank_id, own_id}
use xelis_pool.Slave.Jobs.{gen_extra_nonce, stratum_blob}

-- What a share must agree with a job on.
pub record SameJob (bm jb : Bytes) : Type 0 where
  pub block : IsBlock bm
  pub workhash : get_workhash bm ≡ get_workhash jb
  pub publickey : get_publickey bm ≡ get_publickey jb

module _ (b : Bytes) (h : IsBlock b) where
  pub set_timestamp_ids :
      (t : ℕ)
      → (get_job_id (set_timestamp t b) ≡ get_job_id b)
        × (get_pool_nonce (set_timestamp t b) ≡ get_pool_nonce b)
  unfolding set_timestamp get_job_id get_pool_nonce
  set_timestamp_ids t =
      let n8 = length-be_bytes 8 t in
      (
        slice-set_from_ne 48 16 32 (be_bytes 8 t) b (inl (omega (arith, n8))),
        slice-set_from_ne 64 8 32 (be_bytes 8 t) b (inl (omega (arith, n8))),
      )

  pub set_nonce_ids :
      (n : ℕ)
      → (get_job_id (set_nonce n b) ≡ get_job_id b)
        × (get_pool_nonce (set_nonce n b) ≡ get_pool_nonce b)
  unfolding set_nonce get_job_id get_pool_nonce
  set_nonce_ids n =
      let n8 = length-be_bytes 8 n in
      (
        slice-set_from_ne 48 16 40 (be_bytes 8 n) b (inl (omega (arith, n8))),
        slice-set_from_ne 64 8 40 (be_bytes 8 n) b (inl (omega (arith, n8))),
      )

-- A miner fills in a timestamp and a nonce.
abbrev pub mined : ℕ → ℕ → Bytes → Bytes
mined t n b = set_nonce n (set_timestamp t b)

pub mined_fields :
    (t n : ℕ) (b : Bytes)
    → IsBlock b
    → IsU64 t
    → IsU64 n
    → SameJob (mined t n b) b
      × (get_timestamp (mined t n b) ≡ t)
      × (get_job_id (mined t n b) ≡ get_job_id b)
      × (get_pool_nonce (mined t n b) ≡ get_pool_nonce b)
mined_fields t n b h ht hn =
    let c = set_timestamp t b in
    let (f0, f1, f2, f3, f4, f5) = set_timestamp_fields b t ht h in
    let (g0, g1, g2, g3, g4, g5) = set_nonce_fields c n hn f0 in
    let (i1, i2) = set_timestamp_ids b h t in
    let (k1, k2) = set_nonce_ids c f0 n in
    (record { block = g0; workhash = g2 ∙ f2; publickey = g5 ∙ f5 }, g3 ∙ f1, k1 ∙ i1, k2 ∙ i2)

-- The id of the miner in place of the job's leaves what is checked.
pub own_fields :
    (miner_id bm jb : Bytes)
    → length miner_id ≡ 16
    → SameJob bm jb
    → SameJob (own_id miner_id bm) jb × (get_timestamp (own_id miner_id bm) ≡ get_timestamp bm)
unfolding own_id
own_fields miner_id bm jb size h = elim (Bool-cases (miner_id =? blank_id)) [
  | inl blank ↦ rw blank (h, refl)
  | inr own ↦
      let (f0, f1, f2, f3, f4, f5, f6) = set_job_id_fields bm miner_id size h.block in
      rw own (record { block = f0; workhash = f3 ∙ h.workhash; publickey = f6 ∙ h.publickey }, f4)
]

-- A slice of a prefix is the slice, where the prefix reaches.
take-drop-take {ℓ} :
    {A : Type ℓ} (n lo m : ℕ) (xs : List A)
    → lo + n ≤ m
    → take n (drop lo (take m xs)) ≡ take n (drop lo xs)
take-drop-take zero lo m xs h = refl
take-drop-take (suc n) lo zero xs h = absurd (omega arith)
take-drop-take (suc n) zero (suc m) [] h = refl
take-drop-take (suc n) (suc lo) (suc m) [] h = refl
take-drop-take (suc n) zero (suc m) (x ∷ xs) h =
    ap (λ l. x ∷ l) (take-drop-take n zero m xs (omega arith))
take-drop-take (suc n) (suc lo) (suc m) (x ∷ xs) h = take-drop-take (suc n) lo m xs (omega arith)

-- The ids in an extra nonce.
ids_of_extra_nonce :
    (b xn : Bytes)
    → get_extra_nonce b ≡ xn
    → (get_job_id b ≡ take 16 xn) × (get_pool_nonce b ≡ take 8 (drop 16 xn))
unfolding get_extra_nonce get_job_id get_pool_nonce
ids_of_extra_nonce b xn e = (
  sym (take-drop-take 16 0 32 (drop 48 b) (omega arith)) ∙ ap (take 16) e,
  ap (take 8) (drop-drop 16 48 b)
      ∙ sym (take-drop-take 8 16 32 (drop 48 b) (omega arith))
      ∙ ap (λ l. take 8 (drop 16 l)) e,
)

module _ (random pool_nonce : Bytes) (hr : length random ≡ 16) (hp : length pool_nonce ≡ 8) where
  gen_extra_nonce_ids :
      (length (gen_extra_nonce random pool_nonce) ≡ 32)
      × (take 16 (gen_extra_nonce random pool_nonce) ≡ random)
      × (take 8 (drop 16 (gen_extra_nonce random pool_nonce)) ≡ pool_nonce)
  unfolding gen_extra_nonce
  gen_extra_nonce_ids =
      let inner : Bytes = set_from 0 random (replicate 32 0) in
      let size : length inner ≡ 32 = length-set_from 0 random (replicate 32 0) in
      (
        length-set_from 16 pool_nonce inner ∙ size,
        slice-set_from_ne 0 16 16 pool_nonce inner (inr (omega arith))
            ∙ slice-set_from_self 0 16 random (replicate 32 0) hr (omega arith),
        slice-set_from_self 16 8 pool_nonce inner hp (omega (arith, size)),
      )

  module _ (blob : Bytes) (hb : IsBlock blob) where
    -- The block of a Xatum or getwork job.
    pub xatum_blob_fields :
        (jb : Bytes)
        → jb ≡ set_extra_nonce (gen_extra_nonce random pool_nonce) blob
        → IsBlock jb
          × (get_job_id jb ≡ random)
          × (get_pool_nonce jb ≡ pool_nonce)
          × (get_timestamp jb ≡ get_timestamp blob)
    xatum_blob_fields jb e =
        let (size, id, pool) = gen_extra_nonce_ids in
        let (f0, f1, f2, f3, f4, f5) =
          set_extra_nonce_fields blob (gen_extra_nonce random pool_nonce) size hb in
        let (g1, g2) =
          ids_of_extra_nonce (set_extra_nonce (gen_extra_nonce random pool_nonce) blob)
            (gen_extra_nonce random pool_nonce) f1 in
        rw e (f0, g1 ∙ id, g2 ∙ pool, f3)

    -- The block of a Stratum job, or of a share.
    pub stratum_blob_fields :
        let b = stratum_blob pool_nonce random blob in
        SameJob b blob
        × (get_job_id b ≡ random)
        × (get_pool_nonce b ≡ pool_nonce)
        × (get_timestamp b ≡ get_timestamp blob)
    unfolding stratum_blob
    stratum_blob_fields =
        let b1 = set_extra_nonce (replicate 32 0) blob in
        let (f0, f1, f2, f3, f4, f5) = set_extra_nonce_fields blob (replicate 32 0) refl hb in
        let (g0, g1, g2, g3, g4, g5, g6) = set_pool_nonce_fields b1 pool_nonce hp f0 in
        let (k0, k1, k2, k3, k4, k5, k6) =
          set_job_id_fields (set_pool_nonce pool_nonce b1) random hr g0 in
        (
          record { block = k0; workhash = k3 ∙ g3 ∙ f2; publickey = k6 ∙ g6 ∙ f5 },
          k1,
          k2 ∙ g1,
          k4 ∙ g4 ∙ f3,
        )

  -- A share that is built from the job that was sent agrees with it.
  pub stratum_share_fields :
      (n : ℕ) (blob : Bytes)
      → IsBlock blob
      → IsU64 n
      → let jb = stratum_blob pool_nonce random blob in
        let bm = stratum_blob pool_nonce random (set_nonce n jb) in
        SameJob bm jb
        × (get_job_id bm ≡ random)
        × (get_pool_nonce bm ≡ pool_nonce)
        × (get_job_id jb ≡ random)
        × (get_timestamp bm ≡ get_timestamp blob)
        × (get_timestamp jb ≡ get_timestamp blob)
  stratum_share_fields n blob hb hn =
      let (same, id, pool, time) = stratum_blob_fields blob hb in
      let jb = stratum_blob pool_nonce random blob in
      let (g0, g1, g2, g3, g4, g5) = set_nonce_fields jb n hn same.block in
      let (same', id', pool', time') = stratum_blob_fields (set_nonce n jb) g0 in
      (
        record {
          block = same'.block;
          workhash = same'.workhash ∙ g2;
          publickey = same'.publickey ∙ g5;
        },
        id',
        pool',
        id,
        time' ∙ g3 ∙ time,
        time,
      )
