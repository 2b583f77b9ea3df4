-- ===== src/Tests/Slaves.antt =====
-- Runs of the theorems on the miners of a slave.
use xelis_pool.Common.{
  ℕ, length, ◌≤◌, ◌<◌, ◌≡◌, ◌≢◌, ◌⊎◌, refl, Bool, true, false, none, some, List, [], ◌∷◌, ◌++◌,
  replicate, arith, ltb, ◌&&◌, All,
}
use xelis_pool.Common.Newest.{newest}
use xelis_pool.Common.Bytes.{Bytes, IsBytes, codes, be_value}
use xelis_pool.Common.Text.{remove_port}
use xelis_pool.Common.Assoc.{lookup_or, insert}
use xelis_pool.RateLimit.{Limiter, can_do_action}
use xelis_pool.Pow.BlockMiner.{get_timestamp}
use xelis_pool.Slave.Submit.{Job, blank_id}
use xelis_pool.Slave.Jobs.{no_job, new_miner}
use xelis_pool.Slave.Jobs.Window.{Change, sent, authorizes, history, jobs_after, jobs_after-newest}
use xelis_pool.Slave.Packet.{Decoder, MemJob, Client}
use xelis_pool.Slave.Credit.Packets.{Scored}
use xelis_pool.Slave.Credit.{Daemon, Rules, Pace, Hashes, hash_of}
use xelis_pool.Slave.Credit.Blocks.{effects, blocks, shares, IsOwn, effects-IsProved}
use xelis_pool.Slave.Submit.Proofs.{IsProved}
use xelis_pool.Common.Int.{pos, less}
use xelis_pool.Tests.Samples.{whole_numbers}

abbrev pub all_bytes : Bytes → Bool
all_bytes [] = true
all_bytes (b ∷ bs) = ltb b 256 && all_bytes bs

pub all_bytes-IsBytes : (bs : Bytes) → all_bytes bs ≡ true → IsBytes bs
all_bytes-IsBytes [] e = tt
all_bytes-IsBytes (b ∷ bs) e = ground (arith, e, all_bytes-IsBytes bs)

-- Jobs that differ in their difficulty, and an authorization.
abbrev job_of : ℕ → Job
job_of d = record no_job { diff = d }

abbrev some_changes : List Change
some_changes =
    sent (job_of 1)
    ∷ sent (job_of 2)
    ∷ sent (job_of 3)
    ∷ authorizes 4
    ∷ sent (job_of 5)
    ∷ sent (job_of 6)
    ∷ sent (job_of 7)
    ∷ authorizes 8
    ∷ []

jobs_after-newest_example :
    let js = jobs_after some_changes [] in
    (js ≡ newest (length js) (history some_changes))
    × ((js ≡ history some_changes) ⊎ (6 ≤ length js))
    × (length js ≤ 8)
jobs_after-newest_example = jobs_after-newest some_changes

-- A block of the chain with the timestamp 5.
abbrev pub chain_block : Bytes
chain_block = replicate 39 0 ++ (5 ∷ replicate 72 0)

abbrev pub chain_job : MemJob
chain_job = record { blob = chain_block; diff = 100; height = 1; algorithm = codes "xel/1" }

abbrev pub an_id : Bytes
an_id = replicate 16 7

pub an_id-ne-blank_id : an_id ≢ blank_id
an_id-ne-blank_id e = ground (arith, e)

abbrev pub a_pool_nonce : Bytes
a_pool_nonce = replicate 8 3

abbrev pub no_limits : Limiter
no_limits = record { scores = []; bans = [] }

pub no_limits-allows : (can_do_action (remove_port (codes "ip")) 1 10 no_limits).1 ≡ true
unfolding can_do_action lookup_or insert
no_limits-allows = refl

-- JSON whose text of a block is the block.
abbrev pub plain_decoder : Decoder
plain_decoder = record {
  handshake = λ body. none;
  submit = λ body. some (record { block = body; hash = [] });
}

abbrev pub a_client : Client whole_numbers
a_client = record { miner = new_miner 0; wallet = codes "w"; next_diff = 50 }

pub chain_block-timestamp : get_timestamp chain_block ≡ 5
unfolding get_timestamp be_value
chain_block-timestamp = refl

-- The address asks for a difficulty of 7, below the least one.
abbrev shaking : Decoder
shaking = record {
  handshake = λ body. some (record { addr = codes "w+7"; algos = codes "xel/1" ∷ [] });
  submit = λ body. none;
}

abbrev some_rules : Rules whole_numbers
some_rules = record { trust_score = pos 40; share_target = 15; min_difficulty = 10 }

abbrev a_pace : Pace whole_numbers
a_pace = record { score = pos 0; last_share = 2000; next_diff = 50 }

abbrev taken : Daemon
taken = record { first = true; second = true }

-- A share whose computed hash meets both difficulties.
abbrev easy_job : Job
easy_job = record no_job { diff = 1; chain_diff = 1 }

-- The algorithm is the second one.
abbrev some_hashes : Hashes
some_hashes = record { v1 = λ bm. none; v2 = λ bm. some (replicate 32 1); v3 = λ bm. none }

effects-IsProved_example :
    let es =
      effects whole_numbers some_rules taken 5000 3 false
        (codes "w")
        []
        easy_job
        chain_block
        none
        some_hashes
        (codes "xel/1")
        a_pace in
    ((es ≡ []) ⊎ (shares es ≡ 1))
    × All (IsOwn (codes "w") easy_job chain_block) es
    × (0 < blocks es → IsProved easy_job (hash_of some_hashes (codes "xel/1") chain_block) true)
    × (less (pos 0) (pos 40) ≡ true
        → (es ≡ [])
          ⊎ ((finds : Bool) × IsProved easy_job
                (hash_of some_hashes (codes "xel/1") chain_block)
                finds))
effects-IsProved_example =
    effects-IsProved whole_numbers some_rules taken 5000 3 false (codes "w") [] easy_job chain_block
      none some_hashes (codes "xel/1") a_pace

abbrev a_scored : Scored whole_numbers
a_scored = record { client = a_client; score = pos 0 }
