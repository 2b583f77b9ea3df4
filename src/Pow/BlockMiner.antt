-- ===== src/Pow/BlockMiner.antt =====
-- pow/block_miner.go: the 112 bytes that a miner hashes. An array `[n]byte` is a list of bytes.
-- The fields: work hash 0..32, timestamp 32..40, nonce 40..48, extra nonce 48..80, public key
-- 80..112; the first 16 bytes of the extra nonce are the job id, the next 8 the pool nonce.
pub mod Slices
pub mod Fields
pub mod Blob
use xelis_pool.Common.{
  ℕ, zero, suc, ◌+◌, ◌-◌, ◌*◌, ◌^◌, ◌≡◌, Option, none, some, [], ◌∷◌, ◌++◌, length, set, take, drop,
  replicate, ltb, ◌==◌, if◌then◌else◌,
}
use xelis_pool.Common.Bytes.{Bytes, be_bytes, be_value}

abbrev pub blockminer_length : ℕ
blockminer_length = 112

-- b[lo:hi]
abbrev pub slice : ℕ → ℕ → Bytes → Bytes
slice lo hi b = take (hi - lo) (drop lo b)

-- `b[i+j] = xs[j]` for each j, in order.
unfoldable pub set_from : ℕ → Bytes → Bytes → Bytes
set_from i [] b = b
set_from i (x ∷ xs) b = set_from (suc i) xs (set b i x)

unfoldable pub set_timestamp : ℕ → Bytes → Bytes
set_timestamp t b = set_from 32 (be_bytes 8 t) b

unfoldable pub set_nonce : ℕ → Bytes → Bytes
set_nonce n b = set_from 40 (be_bytes 8 n) b

unfoldable pub set_extra_nonce : Bytes → Bytes → Bytes
set_extra_nonce n b = set_from 48 n b

unfoldable pub get_workhash : Bytes → Bytes
get_workhash b = take 32 b

unfoldable pub get_timestamp : Bytes → ℕ
get_timestamp b = be_value (slice 32 40 b)

unfoldable pub get_nonce : Bytes → ℕ
get_nonce b = be_value (slice 40 48 b)

unfoldable pub get_extra_nonce : Bytes → Bytes
get_extra_nonce b = slice 48 80 b

unfoldable pub get_publickey : Bytes → Bytes
get_publickey b = slice 80 112 b

unfoldable pub get_blob : Bytes → Bytes
unfolding get_workhash get_extra_nonce get_publickey
get_blob b = (get_workhash b ++ get_extra_nonce b) ++ get_publickey b

unfoldable pub get_job_id : Bytes → Bytes
get_job_id b = slice 48 64 b

unfoldable pub set_job_id : Bytes → Bytes → Bytes
set_job_id n b = set_from 48 n b

unfoldable pub get_pool_nonce : Bytes → Bytes
get_pool_nonce b = slice 64 72 b

unfoldable pub set_pool_nonce : Bytes → Bytes → Bytes
set_pool_nonce n b = set_from 64 n b

-- github.com/duggavo/serializer, with `Endian` set to big endian: each call appends.
pub record BigEndianWriter : Type 1 where
  pub W : Type 0
  pub fresh : W
  pub add_fixed_byte_array : Bytes → ℕ → W → W
  pub add_uint64 : ℕ → W → W
  pub written : W → Bytes
  pub written_fresh : written fresh ≡ []
  pub written_array :
      (a : Bytes) (n : ℕ) (w : W)
      → length a ≡ n
      → written (add_fixed_byte_array a n w) ≡ written w ++ a
  pub written_uint64 : (v : ℕ) (w : W) → written (add_uint64 v w) ≡ written w ++ be_bytes 8 v

module _ (writer : BigEndianWriter) where
  open writer use {W, fresh, add_fixed_byte_array, add_uint64, written}

  -- `now` is the clock in milliseconds; `none` is the panic of the conversion to an array.
  unfoldable pub new_block_miner : ℕ → Bytes → Bytes → Bytes → Option Bytes
  new_block_miner now workhash extranonce publickey =
      let s0 : W = add_fixed_byte_array workhash 32 fresh in
      let s1 : W = add_uint64 0 (add_uint64 now s0) in
      let s2 : W = add_fixed_byte_array publickey 32 (add_fixed_byte_array extranonce 32 s1) in
      if ltb (length (written s2)) blockminer_length
      then none
      else some (take blockminer_length (written s2))

  -- The inner `none` is the error.
  unfoldable pub new_block_miner_from_blob : ℕ → Bytes → Option (Option Bytes)
  unfolding new_block_miner
  new_block_miner_from_blob now blob =
      if length blob == 96
      then elim (new_block_miner now (slice 0 32 blob) (slice 32 64 blob) (slice 64 96 blob)) [
        | none ↦ none
        | some b ↦ some (some b)
      ]
      else some none
