-- ===== src/Slave/Submit/Proofs.antt =====
-- When a share counts, and when its block is submitted.
use xelis_pool.Common.{
  ◌≡◌, ◌⊎◌, refl, Bool, true, false, ◌||◌, Option, none, some, inl, inr, arith, Bool-cases,
}
use xelis_pool.Common.Bytes.{Bytes, =?_iff}
use xelis_pool.Pow.Target.{check_diff}
use xelis_pool.Slave.Submit.{Job, valid, by_computed, compared, verify_share}

-- The computed hash meets the job's difficulty, and the chain's exactly where the share finds a
-- block.
abbrev pub IsProved : Job → Option Bytes → Bool → Type 0
IsProved job hashed finds =
    (pow : Bytes) × (hashed ≡ some pow)
    × (check_diff pow job.diff ≡ true)
    × (check_diff pow job.chain_diff ≡ finds)

computed-IsProved :
    (job : Job) (hashed : Option Bytes) (finds : Bool)
    → by_computed job hashed ≡ valid finds
    → IsProved job hashed finds
unfolding by_computed
computed-IsProved job none finds e = absurd (ground (arith, e))
computed-IsProved job (some pow) finds e = (pow, refl, ground (arith, e), ground (arith, e))

compared_proved :
    (h : Bytes) (finds finds' : Bool) (hashed : Option Bytes)
    → compared true h finds hashed ≡ valid finds'
    → (hashed ≡ some h) × (finds ≡ finds')
unfolding compared
compared_proved h finds finds' none e = absurd (ground (arith, e))
compared_proved h finds finds' (some pow) e = ground (arith, e, =?_iff pow h)

not_compared :
    (h : Bytes) (finds finds' : Bool) (hashed : Option Bytes)
    → compared false h finds hashed ≡ valid finds'
    → finds ≡ finds'
unfolding compared
not_compared h finds finds' hashed e = ground (arith, e)

-- A share that counts as one that finds a block, or one of a miner that must be checked, or one
-- sent without a hash, is proved: the hash computed from its block meets the difficulty of the job,
-- and the chain's difficulty exactly where it finds a block.
pub valid_share-IsProved :
    (job : Job) (must_check : Bool) (claimed hashed : Option Bytes) (finds : Bool)
    → (finds ≡ true) ⊎ ((must_check ≡ true) ⊎ (claimed ≡ none))
    → verify_share job must_check claimed hashed ≡ valid finds
    → IsProved job hashed finds
unfolding verify_share
valid_share-IsProved job must_check none hashed finds why e = computed-IsProved job hashed finds e
valid_share-IsProved job must_check (some h) hashed finds why e =
    let cd = check_diff h job.chain_diff in
    let own : check_diff h job.diff ≡ true = ground (arith, e) in
    let g : compared (cd || must_check) h cd hashed ≡ valid finds = ground (arith, e) in
    elim (Bool-cases (cd || must_check)) [
      | inl y ↦
          let (p, q) = compared_proved h cd finds hashed (ground (arith, g, y)) in (h, p, own, q)
      | inr n ↦
          let same : cd ≡ finds = not_compared h cd finds hashed (ground (arith, g, n)) in
          absurd (ground (arith, why, same, n))
    ]
