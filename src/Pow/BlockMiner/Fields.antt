-- ===== src/Pow/BlockMiner/Fields.antt =====
-- Each setter of a block miner changes its own field and no other.
use xelis_pool.Common.{ℕ, ◌+◌, ◌≤◌, ◌≡◌, ◌∙◌, ap, inl, inr, length, take, drop, arith}
use xelis_pool.Common.Bytes.{Bytes, IsU64, be_bytes, be_value, length-be_bytes, be_value-be_bytes}
use xelis_pool.Pow.BlockMiner.{
  blockminer_length, set_from, set_timestamp, set_nonce, set_extra_nonce, get_workhash,
  get_timestamp, get_nonce, get_extra_nonce, get_publickey, get_job_id, set_job_id, get_pool_nonce,
  set_pool_nonce,
}
use xelis_pool.Pow.BlockMiner.Slices.{length-set_from, slice-set_from_self, slice-set_from_ne}

abbrev pub IsBlock : Bytes → Type 0
IsBlock b = length b ≡ blockminer_length

-- What a write into the bytes from `i` on leaves alone: all fields but its own.
module _ (b : Bytes) where
  before :
      (lo n i : ℕ) (xs : Bytes)
      → lo + n ≤ i
      → take n (drop lo (set_from i xs b)) ≡ take n (drop lo b)
  before lo n i xs h = slice-set_from_ne lo n i xs b (inr h)

  after :
      (lo n i k : ℕ) (xs : Bytes)
      → length xs ≡ k
      → i + k ≤ lo
      → take n (drop lo (set_from i xs b)) ≡ take n (drop lo b)
  after lo n i k xs e h = slice-set_from_ne lo n i xs b (inl (omega arith))

  -- In a block of 112 bytes a new uint64 timestamp is read back; the length and the other fields
  -- stay.
  pub set_timestamp_fields :
      (t : ℕ)
      → IsU64 t
      → IsBlock b
      → IsBlock (set_timestamp t b)
        × (get_timestamp (set_timestamp t b) ≡ t)
        × (get_workhash (set_timestamp t b) ≡ get_workhash b)
        × (get_nonce (set_timestamp t b) ≡ get_nonce b)
        × (get_extra_nonce (set_timestamp t b) ≡ get_extra_nonce b)
        × (get_publickey (set_timestamp t b) ≡ get_publickey b)
  unfolding set_timestamp get_timestamp get_workhash get_nonce get_extra_nonce get_publickey
  set_timestamp_fields t ht hb =
      let n8 = length-be_bytes 8 t in
      let xs = be_bytes 8 t in
      (
        length-set_from 32 xs b ∙ hb,
        ap be_value (slice-set_from_self 32 8 xs b n8 (omega arith)) ∙ be_value-be_bytes 8 t ht,
        before 0 32 32 xs (omega arith),
        ap be_value (after 40 8 32 8 xs n8 (omega arith)),
        after 48 32 32 8 xs n8 (omega arith),
        after 80 32 32 8 xs n8 (omega arith),
      )

  -- In a block of 112 bytes a new uint64 nonce is read back; the length and the other fields stay.
  pub set_nonce_fields :
      (n : ℕ)
      → IsU64 n
      → IsBlock b
      → IsBlock (set_nonce n b)
        × (get_nonce (set_nonce n b) ≡ n)
        × (get_workhash (set_nonce n b) ≡ get_workhash b)
        × (get_timestamp (set_nonce n b) ≡ get_timestamp b)
        × (get_extra_nonce (set_nonce n b) ≡ get_extra_nonce b)
        × (get_publickey (set_nonce n b) ≡ get_publickey b)
  unfolding set_nonce get_timestamp get_workhash get_nonce get_extra_nonce get_publickey
  set_nonce_fields n hn hb =
      let n8 = length-be_bytes 8 n in
      let xs = be_bytes 8 n in
      (
        length-set_from 40 xs b ∙ hb,
        ap be_value (slice-set_from_self 40 8 xs b n8 (omega arith)) ∙ be_value-be_bytes 8 n hn,
        before 0 32 40 xs (omega arith),
        ap be_value (before 32 8 40 xs (omega arith)),
        after 48 32 40 8 xs n8 (omega arith),
        after 80 32 40 8 xs n8 (omega arith),
      )

  -- In a block of 112 bytes a new extra nonce of 32 bytes is read back; the length and the other
  -- fields stay.
  pub set_extra_nonce_fields :
      (xs : Bytes)
      → length xs ≡ 32
      → IsBlock b
      → IsBlock (set_extra_nonce xs b)
        × (get_extra_nonce (set_extra_nonce xs b) ≡ xs)
        × (get_workhash (set_extra_nonce xs b) ≡ get_workhash b)
        × (get_timestamp (set_extra_nonce xs b) ≡ get_timestamp b)
        × (get_nonce (set_extra_nonce xs b) ≡ get_nonce b)
        × (get_publickey (set_extra_nonce xs b) ≡ get_publickey b)
  unfolding set_extra_nonce get_timestamp get_workhash get_nonce get_extra_nonce get_publickey
  set_extra_nonce_fields xs hx hb = (
    length-set_from 48 xs b ∙ hb,
    slice-set_from_self 48 32 xs b hx (omega arith),
    before 0 32 48 xs (omega arith),
    ap be_value (before 32 8 48 xs (omega arith)),
    ap be_value (before 40 8 48 xs (omega arith)),
    after 80 32 48 32 xs hx (omega arith),
  )

  -- In a block of 112 bytes a new job id of 16 bytes is read back; the pool nonce, the length and
  -- the fields around the extra nonce stay.
  pub set_job_id_fields :
      (xs : Bytes)
      → length xs ≡ 16
      → IsBlock b
      → IsBlock (set_job_id xs b)
        × (get_job_id (set_job_id xs b) ≡ xs)
        × (get_pool_nonce (set_job_id xs b) ≡ get_pool_nonce b)
        × (get_workhash (set_job_id xs b) ≡ get_workhash b)
        × (get_timestamp (set_job_id xs b) ≡ get_timestamp b)
        × (get_nonce (set_job_id xs b) ≡ get_nonce b)
        × (get_publickey (set_job_id xs b) ≡ get_publickey b)
  unfolding set_job_id get_job_id get_pool_nonce get_timestamp get_workhash get_nonce get_publickey
  set_job_id_fields xs hx hb = (
    length-set_from 48 xs b ∙ hb,
    slice-set_from_self 48 16 xs b hx (omega arith),
    after 64 8 48 16 xs hx (omega arith),
    before 0 32 48 xs (omega arith),
    ap be_value (before 32 8 48 xs (omega arith)),
    ap be_value (before 40 8 48 xs (omega arith)),
    after 80 32 48 16 xs hx (omega arith),
  )

  -- In a block of 112 bytes a new pool nonce of 8 bytes is read back; the job id, the length and
  -- the fields around the extra nonce stay.
  pub set_pool_nonce_fields :
      (xs : Bytes)
      → length xs ≡ 8
      → IsBlock b
      → IsBlock (set_pool_nonce xs b)
        × (get_pool_nonce (set_pool_nonce xs b) ≡ xs)
        × (get_job_id (set_pool_nonce xs b) ≡ get_job_id b)
        × (get_workhash (set_pool_nonce xs b) ≡ get_workhash b)
        × (get_timestamp (set_pool_nonce xs b) ≡ get_timestamp b)
        × (get_nonce (set_pool_nonce xs b) ≡ get_nonce b)
        × (get_publickey (set_pool_nonce xs b) ≡ get_publickey b)
  unfolding set_pool_nonce get_job_id get_pool_nonce get_timestamp get_workhash get_nonce
      get_publickey
  set_pool_nonce_fields xs hx hb = (
    length-set_from 64 xs b ∙ hb,
    slice-set_from_self 64 8 xs b hx (omega arith),
    before 48 16 64 xs (omega arith),
    before 0 32 64 xs (omega arith),
    ap be_value (before 32 8 64 xs (omega arith)),
    ap be_value (before 40 8 64 xs (omega arith)),
    after 80 32 64 8 xs hx (omega arith),
  )
