-- ===== src/Slave/Credit.antt =====
-- What follows an accepted submit packet in `handleConnPacket` of cmd/slave/handler.go: the trust
-- score, the difficulty, the share for the master, and the block for the daemon.
pub mod Blocks
pub mod Packets
use xelis_pool.Common.{
  ℕ, ◌-◌, Bool, true, false, ◌&&◌, ◌||◌, not, Option, List, [], ◌∷◌, ◌++◌, if◌then◌else◌,
}
use xelis_pool.Common.Int.{ℤ, pos, increment, negate, less}
use xelis_pool.Common.Bytes.{Bytes}
use xelis_pool.Pow.Algorithm.{pow_hash}
use xelis_pool.Slave.Submit.{Job, Verdict, dropped, distrusted, valid, verify_share}
use xelis_pool.Slave.Jobs.{last_job}
use xelis_pool.Master.Float.{Float}

-- What is done outside the connection: a share for the master, a block for the daemon, and the
-- report of a block to the master.
pub data Effect : Type 0 where
  share : Bytes → ℕ → Effect
  submit_block : Bytes → Effect
  report_block : Bytes → Effect

-- The answers of the daemon to the block, and to the block sent again: whether it took it.
pub record Daemon : Type 0 where
  pub first : Bool
  pub second : Bool

-- A block that was refused is sent again; the master is told of it only when it is refused again.
unfoldable pub block_effects : Daemon → Bytes → List Effect
block_effects d bm =
    if d.first
    then submit_block bm ∷ report_block bm ∷ []
    else submit_block bm ∷ submit_block bm ∷ (if d.second then [] else report_block bm ∷ [])

unfoldable pub share_effects : Daemon → Bytes → Job → Bytes → Bool → List Effect
unfolding block_effects
share_effects d wallet job bm finds =
    share wallet job.diff ∷ (if finds then block_effects d bm else [])

-- The hash functions of github.com/xelis-project/xelis-hash.
pub record Hashes : Type 0 where
  pub v1 : Bytes → Option Bytes
  pub v2 : Bytes → Option Bytes
  pub v3 : Bytes → Option Bytes

-- `bm.PowHash(algo)`
abbrev pub hash_of : Hashes → Bytes → Bytes → Option Bytes
hash_of h algo bm = pow_hash h.v1 h.v2 h.v3 bm algo

-- The coefficient `K` of the smoothing.
unfoldable pub smoothing : ℤ → ℕ
smoothing score =
    if not (less score (pos 0)) && less score (pos 5)
    then 5
    else if less score (pos 15)
    then 12
    else 20

module _ (float : Float) where
  open float use {F, of_ℕ, add, mul, div, lt}

  pub record Pace : Type 0 where
    pub score : ℤ
    pub last_share : ℕ
    pub next_diff : F

  pub record Rules : Type 0 where
    pub trust_score : ℤ
    pub share_target : F
    pub min_difficulty : ℕ

  unfoldable pub distrust : Rules → Pace → Pace
  distrust r p = record p { score = negate r.trust_score }

  -- `seconds` is the time since the last share.
  unfoldable pub future_diff : Rules → F → Job → F
  future_diff r seconds job =
      let fut : F = mul (div (of_ℕ job.diff) seconds) r.share_target in
      if lt fut (of_ℕ r.min_difficulty) then of_ℕ r.min_difficulty else fut

  -- `now` is the clock, in milliseconds.
  unfoldable pub reward : Rules → ℕ → F → Job → Pace → Pace
  unfolding future_diff smoothing
  reward r now seconds job p =
      let score = increment p.score in
      let k = smoothing score in
      record {
        score = score;
        last_share = now;
        next_diff = div (add (mul p.next_diff (of_ℕ (k - 1))) (future_diff r seconds job)) (of_ℕ k);
      }

  -- Whether the difficulty moved so much that the last job is sent again.
  unfoldable pub wants_job : List Job → Pace → Bool
  wants_job jobs p =
      lt (mul (of_ℕ (last_job jobs).diff) (of_ℕ 4)) p.next_diff
      || lt p.next_diff (mul (of_ℕ (last_job jobs).diff) (div (of_ℕ 1) (of_ℕ 2)))

  -- The pace, the effects, and whether a new job is to be sent: not behind a block that the daemon
  -- refused.
  pub record Outcome : Type 0 where
    pub pace : Pace
    pub effects : List Effect
    pub resend : Bool

  unfoldable pub settle :
      Rules → Daemon → ℕ → F → Bytes → List Job → Job → Bytes → Pace → Verdict → Outcome
  unfolding distrust reward share_effects wants_job
  settle r d now seconds wallet jobs job bm p dropped = record {
    pace = p;
    effects = [];
    resend = false;
  }
  settle r d now seconds wallet jobs job bm p distrusted = record {
    pace = distrust r p;
    effects = [];
    resend = false;
  }
  settle r d now seconds wallet jobs job bm p (valid finds) = record {
    pace = reward r now seconds job p;
    effects = share_effects d wallet job bm finds;
    resend = if finds && not d.first then false else wants_job jobs (reward r now seconds job p);
  }

  -- The goroutine of a submit packet: `drawn` is the random draw for a trusted miner, `algo` the
  -- algorithm of the last known job.
  unfoldable pub after_submit :
      Rules
      → Daemon
      → ℕ
      → F
      → Bool
      → Bytes
      → List Job
      → Job
      → Bytes
      → Option Bytes
      → Hashes
      → Bytes
      → Pace
      → Outcome
  unfolding settle
  after_submit r d now seconds drawn wallet jobs job bm claimed hashes algo p =
      settle r d now seconds wallet jobs job bm p
        (verify_share job (less p.score r.trust_score || drawn) claimed (hash_of hashes algo bm))
