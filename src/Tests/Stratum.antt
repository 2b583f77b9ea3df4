-- ===== src/Tests/Stratum.antt =====
-- Runs of the theorems on Stratum miners.
use xelis_pool.Slave.Stratum.Race.{Peers, accept_reads, accept_stores, dead, append_brings_back}
use xelis_pool.Slave.Stratum.Server.{Served, ip_of, is_alive, send_jobs, ping_all}
use xelis_pool.Slave.Sweep.{Counted, admit, admit_lem, listed}
use xelis_pool.RateLimit.{Limiter, can_connect, conns_of, can_do_action}
use xelis_pool.Common.Bytes.{◌=?◌, Bytes, codes, be_bytes}
use xelis_pool.Common.Assoc.{insert, lookup_or}
use xelis_pool.Slave.Stratum.{
  StratumConn, turn, response, failed, running, blocked, with_lock, RequestIn, Json, submit_params,
  send_stratum, handle_stratum,
}
use xelis_pool.Common.{
  ◌+◌, Option, map, List, ◌≡◌, refl, ap, Bool, true, false, none, some, [], ◌∷◌, ◌++◌, replicate,
  arith, ◌==◌,
}
use xelis_pool.Common.Options.{◌>>=◌}
use xelis_pool.Slave.Submit.{find_job}
use xelis_pool.Slave.Jobs.{new_miner}
use xelis_pool.Slave.Stratum.Honest.{
  submit_params-share_params, share_params, IsAccepted, handle_stratum-IsAccepted,
}
use xelis_pool.Slave.Stratum.Shares.{stale_share_blocks}
use xelis_pool.Tests.Samples.{whole_numbers}
use xelis_pool.Tests.Slaves.{
  all_bytes-IsBytes, chain_block, chain_block-timestamp, chain_job, an_id, an_id-ne-blank_id,
  a_pool_nonce, no_limits, no_limits-allows, plain_decoder, a_client,
}

abbrev pub a_request : RequestIn
a_request = record { id = 9; method = codes "mining.submit"; params = [] }

abbrev pub json_of : List Bytes → Json
json_of params = record {
  request = λ line. some a_request;
  strings = λ text. some params;
  submit_data = λ bm. some bm;
}

abbrev pub a_conn : StratumConn whole_numbers
a_conn = record {
  client = a_client;
  miner_id = replicate 16 8;
  ip = codes "ip";
  last_out_id = 0;
  alive = true;
}

abbrev pub honest_json : Json
honest_json = json_of (share_params (codes "u") an_id 77)

a_conn-unlocked : a_conn.client.miner.locked ≡ false
unfolding new_miner
a_conn-unlocked = refl

handle_stratum-IsAccepted_example :
    IsAccepted whole_numbers honest_json plain_decoder
      (λ a. true)
      a_pool_nonce
      10
      20
      chain_job
      10
      10000
      none
      1
      an_id
      9
      (handle_stratum whole_numbers honest_json plain_decoder
        (λ a. true)
        a_pool_nonce
        10
        20
        chain_job
        10
        10000
        none
        1
        an_id
        (some (codes "line"))
        true
        no_limits
        (send_stratum whole_numbers 10 1 an_id a_pool_nonce 100 chain_block a_conn).0)
handle_stratum-IsAccepted_example =
    handle_stratum-IsAccepted whole_numbers honest_json plain_decoder (λ a. true) a_pool_nonce 10 20
      chain_job 10 10000 none 1 an_id 100 77 chain_block (codes "line") (codes "u") a_request true
      no_limits a_conn (λ bm. (bm, refl, refl)) a_conn-unlocked no_limits-allows refl refl refl
      (all_bytes-IsBytes an_id refl) refl an_id-ne-blank_id refl refl refl (omega arith)
      (ap (λ t. t == 0) chain_block-timestamp) (omega (arith, chain_block-timestamp))

abbrev stale_json : Json
stale_json = json_of (share_params (codes "u") an_id 77)

no_jobs-job : find_job an_id a_conn.client.miner.jobs ≡ none
unfolding new_miner find_job
no_jobs-job = refl

stale_params : (stale_json.strings [] >>= submit_params) ≡ some (an_id, be_bytes 8 77)
unfolding submit_params
stale_params = submit_params-share_params (codes "u") an_id 77 (all_bytes-IsBytes an_id refl) refl

stale_share_blocks_example :
    let round =
      handle_stratum whole_numbers stale_json plain_decoder
        (λ a. true)
        a_pool_nonce
        10
        20
        chain_job
        10
        10000
        none
        1
        an_id in
    let stuck = with_lock whole_numbers true a_conn in
    (round (some (codes "line")) true no_limits a_conn
      ≡ turn whole_numbers stuck no_limits (response 9 (failed 21) ∷ []) running)
    × ((read : Option Bytes) (w : Bool) (l' : Limiter)
        → round read w l' stuck ≡ turn whole_numbers stuck l' [] blocked)
    × ((before behind : List (StratumConn whole_numbers))
        → ping_all whole_numbers (before ++ (stuck ∷ behind)) ≡ none)
stale_share_blocks_example =
    stale_share_blocks whole_numbers stale_json plain_decoder (λ a. true) a_pool_nonce 10 20
      chain_job 10 10000 none 1 an_id (codes "line") a_request an_id (be_bytes 8 77) true no_limits
      a_conn a_conn-unlocked refl refl stale_params no_jobs-job

-- A connection that died is listed and counted.
abbrev dead_conn : StratumConn whole_numbers
dead_conn = record a_conn { alive = false }

abbrev one_dead : Served whole_numbers
one_dead = record { conns = dead_conn ∷ []; open_conns = (can_connect (codes "ip") []).0 }

one_dead-Counted :
    Counted
      (ip_of whole_numbers)
      (is_alive whole_numbers)
      (λ ip. 0)
      one_dead.conns
      one_dead.open_conns
unfolding can_connect lookup_or admit
one_dead-Counted =
    admit_lem (ip_of whole_numbers) (is_alive whole_numbers) (λ ip. 0) dead_conn [] []
      (λ ip. unfold listed in refl)

abbrev reads : Limiter × (Served whole_numbers × Option (Peers whole_numbers))
reads = accept_reads whole_numbers 10 a_conn no_limits one_dead

reads_lem : reads.1 ≡ (reads.1.0, some (dead_conn ∷ a_conn ∷ []))
unfolding accept_reads can_connect can_do_action lookup_or insert ◌=?◌
reads_lem = refl

append_brings_back_example :
    let (m, sent) =
      send_jobs whole_numbers 10 a_pool_nonce 100 chain_block (λ n. an_id) (λ n. 1) reads.1.0 in
    let s2 =
      accept_stores whole_numbers
        (some (dead_conn ∷ a_conn ∷ []))
        (record { conns = map (λ x. x.0) sent; open_conns = m }) in
    (s2.conns ≡ dead_conn ∷ a_conn ∷ [])
    × ((ip : Bytes)
        → conns_of ip s2.open_conns + dead whole_numbers ip one_dead.conns
          ≡ 0 + listed (ip_of whole_numbers) (is_alive whole_numbers) ip s2.conns)
append_brings_back_example =
    append_brings_back whole_numbers (λ ip. 0) 10 a_conn no_limits one_dead reads.1.0
      (dead_conn ∷ a_conn ∷ []) 10 a_pool_nonce 100 chain_block (λ n. an_id) (λ n. 1)
      one_dead-Counted reads_lem
