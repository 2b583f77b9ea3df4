-- ===== src/Tests/Mining.antt =====
-- Runs of the theorems on blocks, difficulties and algorithm names.
use xelis_pool.Common.{
  ◌*◌, ◌-◌, ◌^◌, ◌≤◌, ◌≡◌, ◌↔◌, refl, true, some, ◌++◌, length, arith, replicate,
}
use xelis_pool.Common.Bytes.{Bytes, IsBytes, be_bytes, be_value, be_bytes-IsBytes, length-be_bytes}
use xelis_pool.Pow.BlockMiner.{
  set_from, get_workhash, get_timestamp, get_nonce, get_extra_nonce, get_publickey, get_blob,
  new_block_miner_from_blob,
}
use xelis_pool.Pow.BlockMiner.Fields.{IsBlock}
use xelis_pool.Pow.BlockMiner.Blob.{new_block_miner_from_blob-get_blob}
use xelis_pool.Pow.Target.{check_diff, lex_le, get_target_bytes, get_target}
use xelis_pool.Common.Big.{big_bytes}
use xelis_pool.Pow.Target.Bounds.{check_diff_iff}
use xelis_pool.Tests.Samples.{bytes_writer}

-- A hash with one zero byte in front.
abbrev a_hash : Bytes
a_hash = be_bytes 32 (2 ^ 248 - 1)

a_hash_size : length a_hash ≡ 32
a_hash_size = length-be_bytes 32 (2 ^ 248 - 1)

a_hash-IsBytes : IsBytes a_hash
a_hash-IsBytes = be_bytes-IsBytes 32 (2 ^ 248 - 1)

check_diff_iff_example : (check_diff a_hash 100 ≡ true) ↔ (be_value a_hash * 100 ≤ 2 ^ 256 - 1)
check_diff_iff_example =
    check_diff_iff a_hash 100 a_hash_size a_hash-IsBytes (omega arith) (omega arith)

a_hash_meets : check_diff a_hash 100 ≡ true
unfolding check_diff lex_le get_target_bytes set_from big_bytes get_target be_value be_bytes
a_hash_meets = refl

abbrev a_block : Bytes
a_block = replicate 32 1 ++ (replicate 16 2 ++ (replicate 32 3 ++ replicate 32 4))

abbrev a_nonce : Bytes
a_nonce = replicate 32 9

abbrev a_job : Bytes
a_job = replicate 16 8

abbrev a_pool_nonce : Bytes
a_pool_nonce = replicate 8 5

new_block_miner_from_blob-get_blob_example :
    (b' : Bytes) × (new_block_miner_from_blob bytes_writer 1700000000000 (get_blob a_block)
      ≡ some (some b'))
    × IsBlock b'
    × (get_workhash b' ≡ get_workhash a_block)
    × (get_timestamp b' ≡ 1700000000000)
    × (get_nonce b' ≡ 0)
    × (get_extra_nonce b' ≡ get_extra_nonce a_block)
    × (get_publickey b' ≡ get_publickey a_block)
new_block_miner_from_blob-get_blob_example =
    new_block_miner_from_blob-get_blob bytes_writer 1700000000000 a_block (omega arith) refl
