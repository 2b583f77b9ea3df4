-- ===== src/Tests/Shares.antt =====
-- Runs of the theorems on shares, from the miner to the database.
use xelis_pool.Pow.Target.{get_target, get_target_bytes, lex_le, check_diff}
use xelis_pool.Common.Big.{big_bytes}
use xelis_pool.Pow.BlockMiner.{
  set_from, get_nonce, get_timestamp, get_publickey, get_workhash, get_job_id, get_pool_nonce,
}
use xelis_pool.Common.Bytes.{be_value, ◌=?◌, le_bytes, le_value, Bytes, codes, be_bytes}
use xelis_pool.Serializer.Uvarint.{groups, uvarint_loop, uvarint}
use xelis_pool.Database.Encode.{serialize_share}
use xelis_pool.Common.Assoc.{lookup_or, insert}
use xelis_pool.Serializer.Reader.{read_uint64, slice_of, read_string, fixed, read_uint8}
use xelis_pool.Common.{
  ℕ, ◌≡◌, refl, Bool, true, false, none, some, List, [], ◌∷◌, ◌++◌, arith, replicate, ltb, ◌==◌,
}
use xelis_pool.Database.Decode.{deserialize_share}
use xelis_pool.Slave.Submit.{Job, Miner, accepted, duplicate, check_submit, valid, verify_share}
use xelis_pool.Slave.Submit.Nonces.{nonce_counts_once}
use xelis_pool.Master.Confirm.{is_banned}
use xelis_pool.Master.Store.{memory}
use xelis_pool.Master.Rewards.{Work, count_shares}
use xelis_pool.Master.Shares.{database_cleanup, itob, Pool, on_share_found}
use xelis_pool.Master.Shares.Window.{cleanup_keeps_count, on_share_found_stored}
use xelis_pool.Tests.Samples.{whole_numbers}

abbrev share_at : ℕ → Bytes
share_at time = 0 ∷ 1 ∷ 97 ∷ 100 ∷ (replicate 7 0 ++ (time ∷ replicate 7 0))

-- A share of the window, an old one and one that cannot be read.
abbrev stored_shares : List (Bytes × Bytes)
stored_shares = (0 ∷ [], share_at 200) ∷ (1 ∷ [], share_at 10) ∷ (2 ∷ [], 7 ∷ []) ∷ []

abbrev kept_shares : List (Bytes × Bytes)
kept_shares = (0 ∷ [], share_at 200) ∷ []

abbrev counted_shares : List (Bytes × Bytes)
counted_shares = (0 ∷ [], share_at 200) ∷ (2 ∷ [], 7 ∷ []) ∷ []

abbrev no_work : Work whole_numbers
no_work = record { total = 0; miners = [] }

abbrev work_of_a : Work whole_numbers
work_of_a = record { total = 100; miners = (codes "a", 100) ∷ [] }

stored_shares_cleaned : database_cleanup 60 220 stored_shares ≡ some kept_shares
unfolding database_cleanup deserialize_share read_uint8 fixed read_string uvarint uvarint_loop
    slice_of read_uint64 le_value
stored_shares_cleaned = refl

stored_shares_counted :
    count_shares whole_numbers 60 220 stored_shares no_work ≡ some (counted_shares, work_of_a)
unfolding count_shares deserialize_share read_uint8 fixed read_string uvarint uvarint_loop slice_of
    read_uint64 le_value insert lookup_or
stored_shares_counted = refl

cleanup_keeps_count_example :
    count_shares whole_numbers 60 220 kept_shares no_work ≡ some (kept_shares, work_of_a)
cleanup_keeps_count_example =
    cleanup_keeps_count whole_numbers 60 220 stored_shares kept_shares counted_shares no_work
      work_of_a stored_shares_cleaned stored_shares_counted

abbrev same : ℕ → ℕ
same x = x

abbrev is_zero : ℕ → Bool
is_zero x = x == 0

abbrev every_address : Bytes → Bool
every_address a = true

abbrev empty_pool : Pool whole_numbers same is_zero memory
empty_pool = record { stats = record { known = []; hashes = 0 }; shares = []; sequence = 4 }

abbrev share_of_a : Bytes
share_of_a = share_at 200

nobody_banned : is_banned [] (codes "a") ≡ false
unfolding is_banned
nobody_banned = refl

on_share_found_stored_example :
    (v : Bytes) × (memory.get
        (itob 5)
        (on_share_found whole_numbers same is_zero memory every_address
          (codes "f")
          []
          200
          200
          (codes "a")
          100
          empty_pool).shares
      ≡ some v)
    × (deserialize_share v ≡ some (record { wallet = codes "a"; diff = 100; time = 200 }, none))
unfolding insert serialize_share groups le_bytes
on_share_found_stored_example =
    on_share_found_stored whole_numbers same is_zero memory every_address (codes "f") [] 200 200
      (codes "a") 100 empty_pool ((itob 5, share_of_a) ∷ []) nobody_banned
      (omega arith, omega arith, omega arith) refl

not_below_itself : (x : ℕ) → ltb x x ≡ false
not_below_itself x = ground arith

abbrev a_blob : Bytes
a_blob = replicate 32 1 ++ (replicate 16 2 ++ (replicate 32 3 ++ replicate 32 4))

abbrev a_job : Job
a_job = record { diff = 1; chain_diff = 2; block_miner = a_blob; submitted_nonces = [] }

abbrev a_miner : Miner
a_miner = record { jobs = a_job ∷ []; last_share = 0; locked = false }

abbrev the_nonce : ℕ
the_nonce = 144680345676153346

first_accepted :
    (check_submit 144680345676153346 (replicate 8 3) (replicate 16 0) a_blob a_miner).1
    ≡ accepted (record a_job { submitted_nonces = the_nonce ∷ [] }) a_blob
unfolding check_submit ◌=?◌ get_pool_nonce get_job_id get_workhash get_publickey get_timestamp
    be_value get_nonce
first_accepted = refl

nonce_counts_once_example :
    (check_submit 144680345676153347
      (replicate 8 3)
      (replicate 16 0)
      a_blob
      (check_submit 144680345676153346 (replicate 8 3) (replicate 16 0) a_blob a_miner).0).1
    ≡ duplicate
nonce_counts_once_example =
    nonce_counts_once 144680345676153346 144680345676153347 (replicate 8 3) (replicate 16 0) a_blob
      a_blob a_miner (record a_job { submitted_nonces = the_nonce ∷ [] }) first_accepted

abbrev small_hash : Bytes
small_hash = 0 ∷ replicate 31 9

small_hash_valid : verify_share a_job true (some small_hash) (some small_hash) ≡ valid true
unfolding verify_share ◌=?◌ check_diff lex_le get_target_bytes set_from big_bytes get_target
    be_value be_bytes
small_hash_valid = refl
