-- ===== src/Tests/Daemons.antt =====
-- Runs of the theorems on getwork and Xatum miners.
use xelis_pool.Common.{
  ℕ, ◌≡◌, ◌≢◌, inl, refl, true, false, Option, none, some, List, [], replicate, arith, All, zero,
  suc,
}
use xelis_pool.Common.Bytes.{Bytes, codes, be_bytes, ◌=?◌}
use xelis_pool.Common.Text.{remove_port}
use xelis_pool.Common.Hex.{encode_hex}
use xelis_pool.Common.Assoc.{lookup_or, insert}
use xelis_pool.RateLimit.{Limiter, can_do_action}
use xelis_pool.Pow.BlockMiner.{get_pool_nonce, set_from, set_timestamp, set_nonce, set_extra_nonce}
use xelis_pool.Pow.Algorithm.{convert_algorithm_to_getwork, getwork_of, to_lower}
use xelis_pool.Slave.Jobs.{new_miner, send_job, gen_extra_nonce}
use xelis_pool.Slave.Jobs.Blobs.{mined}
use xelis_pool.Slave.Packet.{Submit, Decoder}
use xelis_pool.Slave.Getwork.{
  nil, text, Json, GetworkConn, Served, too_many, join, send_getwork, ws_message,
}
use xelis_pool.Slave.Getwork.Honest.{next_of, IsAccepted, ws_message-IsAccepted}
use xelis_pool.Slave.Getwork.Joins.{IsRefused, join_all, joins_lock_out}
use xelis_pool.Slave.Daemon.{XatumConn, turn, blocked, send_to_conn, handle_conn}
use xelis_pool.Slave.Daemon.Bans.{idle_ban_misses, other_pool_blocks}
use xelis_pool.Tests.Samples.{whole_numbers}
use xelis_pool.Tests.Slaves.{
  all_bytes, all_bytes-IsBytes, chain_block, chain_block-timestamp, chain_job, an_id,
  an_id-ne-blank_id, a_pool_nonce, no_limits, no_limits-allows, plain_decoder, a_client,
}

abbrev a_conn : GetworkConn whole_numbers
a_conn = record { client = a_client; ip = codes "ip"; alive = true; connected = true }

abbrev next : ℕ
next =
    next_of whole_numbers 10 a_pool_nonce
      (record { fields = λ m. (nil, nil); submit_data = λ bm. some bm }) plain_decoder (λ a. true)
      chain_job (codes "xel/1") 10 10000 none 1 an_id a_conn

-- The block of the job with the timestamp 6 and the nonce 77.
abbrev a_share : Bytes
a_share = mined 6 77 (send_job next an_id a_pool_nonce 100 chain_block a_conn.client.miner).1.blob

abbrev a_json : Json
a_json = record {
  fields = λ message. (text (encode_hex a_share), nil);
  submit_data = λ bm. some bm;
}

a_share-bytes : all_bytes a_share ≡ true
unfolding send_job gen_extra_nonce set_from set_timestamp set_nonce set_extra_nonce be_bytes
a_share-bytes = refl

unlocked : a_client.miner.locked ≡ false
unfolding new_miner
unlocked = refl

known_algorithm : convert_algorithm_to_getwork (codes "xel/1") ≡ some (codes "xel/v2")
unfolding convert_algorithm_to_getwork getwork_of to_lower ◌=?◌
known_algorithm = refl

ws_message-IsAccepted_example :
    IsAccepted whole_numbers 10 a_pool_nonce a_json plain_decoder
      (λ a. true)
      chain_job
      (codes "xel/1")
      10
      10000
      none
      1
      an_id
      (ws_message whole_numbers 10 a_pool_nonce a_json plain_decoder
        (λ a. true)
        chain_job
        (codes "xel/1")
        10
        10000
        none
        1
        an_id
        2
        (some (codes "message"))
        true
        no_limits
        (send_getwork whole_numbers 10 a_pool_nonce 1 an_id 100 chain_block
          (codes "xel/1")
          a_conn).0)
ws_message-IsAccepted_example =
    ws_message-IsAccepted whole_numbers 10 a_pool_nonce a_json plain_decoder (λ a. true) chain_job
      (codes "xel/1") 10 10000 none 1 an_id 2 100 6 77 chain_block (codes "xel/1") (codes "xel/v2")
      (codes "message") nil true no_limits a_conn (λ bm. (bm, refl, refl)) refl unlocked
      no_limits-allows known_algorithm refl (all_bytes-IsBytes a_share a_share-bytes) refl refl refl
      an_id-ne-blank_id (omega arith) (omega arith) (omega (arith, chain_block-timestamp))
      (omega arith)

-- 101 requests with an address of two letters.
abbrev bad_requests : List (ℕ × Bytes)
bad_requests = replicate 101 (10, codes "ab")

bad_requests-IsRefused :
    (n : ℕ)
    → All
        (λ (r : ℕ × Bytes). IsRefused whole_numbers (λ a. true) 10 (codes "ip") r.1)
        (replicate n (10, codes "ab"))
bad_requests-IsRefused zero = tt
bad_requests-IsRefused (suc n) = (inl (omega arith), bad_requests-IsRefused n)

abbrev empty_server : Served whole_numbers
empty_server = record { conns = []; open_conns = [] }

joins_lock_out_example :
    let r =
      join_all whole_numbers (λ a. true) 10 (codes "ip") bad_requests no_limits empty_server in
    (r.1.conns ≡ [])
    × ((now now_ms : ℕ) (addr : Bytes) (l' : Limiter)
        → join whole_numbers (λ a. true) 10 now now_ms (codes "ip") addr l' r.1
          ≡ ((l', r.1), too_many))
joins_lock_out_example =
    joins_lock_out whole_numbers (λ a. true) 10 (codes "ip") bad_requests no_limits empty_server
      (bad_requests-IsRefused 101) refl (unfold lookup_or in refl)

abbrev a_miner : XatumConn whole_numbers
a_miner = record { id = 1; address = codes "1.2:80"; client = a_client }

idle_ban_misses_example :
    let t =
      send_to_conn whole_numbers 10 a_pool_nonce 700 an_id 1000 1000000 100 chain_block no_limits
        a_miner in
    (remove_port (codes "1.2:80") ≡ codes "1.2")
    × ((can_do_action (codes "1.2") 1 1001 t.limiter).1
        ≡ (can_do_action (codes "1.2") 1 1001 no_limits).1)
idle_ban_misses_example =
    idle_ban_misses whole_numbers 10 a_pool_nonce 700 an_id 1000 1000000 100 chain_block
      (codes "1.2") (codes "80") no_limits a_miner 1 1001 refl (refl, (refl, (refl, tt)))

-- The pool nonce of this block is zero.
abbrev other_share : Submit
other_share = record { block = replicate 112 0; hash = [] }

abbrev other_decoder : Decoder
other_decoder = record { handshake = λ body. none; submit = λ body. some other_share }

other_nonce : get_pool_nonce other_share.block ≢ a_pool_nonce
unfolding get_pool_nonce
other_nonce e = ground (arith, e)

from_port : (can_do_action (remove_port (codes "1.2:80")) 1 10 no_limits).1 ≡ true
unfolding can_do_action lookup_or insert
from_port = refl

other_pool_blocks_example :
    let round =
      handle_conn whole_numbers 10 a_pool_nonce other_decoder
        (λ a. true)
        chain_job
        10
        10000
        1
        an_id in
    let t = round 2 (some (codes "submit~{}")) no_limits a_miner in
    (t.status ≡ blocked)
    × (t.sent ≡ [])
    × ((n : ℕ) (read : Option Bytes) (l' : Limiter)
        → round n read l' t.conn ≡ turn whole_numbers t.conn l' [] blocked)
other_pool_blocks_example =
    other_pool_blocks whole_numbers 10 a_pool_nonce other_decoder (λ a. true) chain_job 10 10000 1
      an_id 2 (codes "{}") other_share no_limits a_miner refl unlocked from_port refl refl
      other_nonce
