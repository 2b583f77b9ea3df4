-- ===== src/Slave/Credit/Blocks.antt =====
-- Which blocks reach the daemon, and which shares the master.
use xelis_pool.Common.{
  ℕ, ◌+◌, ◌<◌, ap, ◌∙◌, Bool-cases, ◌≡◌, ◌⊎◌, inl, inr, refl, Bool, true, false, ◌||◌, Option, List,
  [], ◌∷◌, All, arith,
}
use mathlib.Core.Path.{subst}
use xelis_pool.Common.Int.{less}
use xelis_pool.Common.Bytes.{Bytes}
use xelis_pool.Slave.Submit.{Job, Verdict, dropped, distrusted, valid, verify_share}
use xelis_pool.Slave.Submit.Proofs.{IsProved, valid_share-IsProved}
use xelis_pool.Slave.Credit.{
  Effect, share, submit_block, report_block, Daemon, block_effects, share_effects, Hashes, hash_of,
  Pace, Rules, settle, after_submit,
}
use xelis_pool.Master.Float.{Float}

-- The blocks submitted or reported, and the shares sent.
unfoldable pub blocks : List Effect → ℕ
blocks [] = 0
blocks (submit_block bm ∷ es) = 1 + blocks es
blocks (share w diff ∷ es) = blocks es
blocks (report_block bm ∷ es) = 1 + blocks es

unfoldable pub shares : List Effect → ℕ
shares [] = 0
shares (share w diff ∷ es) = 1 + shares es
shares (submit_block bm ∷ es) = shares es
shares (report_block bm ∷ es) = shares es

-- An effect of this share: its wallet has the difficulty of the job, or its block is sent.
abbrev pub IsOwn : Bytes → Job → Bytes → Effect → Type 0
IsOwn wallet job bm (share w diff) = (w ≡ wallet) × (diff ≡ job.diff)
IsOwn wallet job bm (submit_block x) = x ≡ bm
IsOwn wallet job bm (report_block x) = x ≡ bm

block_effects-IsOwn :
    (wallet : Bytes) (job : Job) (bm : Bytes) (d : Daemon)
    → All (IsOwn wallet job bm) (block_effects d bm)
unfolding block_effects
block_effects-IsOwn wallet job bm d = elim (Bool-cases d.first) [
  | inl taken ↦ rw taken (refl, (refl, tt))
  | inr refused ↦ rw refused (elim (Bool-cases d.second) [
    | inl again ↦ rw again (refl, (refl, tt))
    | inr twice ↦ rw twice (refl, (refl, (refl, tt)))
  ])
]

block_effects-shares : (d : Daemon) (bm : Bytes) → shares (block_effects d bm) ≡ 0
unfolding block_effects shares
block_effects-shares d bm = ground arith

share_effects_lem :
    (d : Daemon) (wallet : Bytes) (job : Job) (bm : Bytes) (finds : Bool)
    → All (IsOwn wallet job bm) (share_effects d wallet job bm finds)
      × (shares (share_effects d wallet job bm finds) ≡ 1)
      × (finds ≡ false → blocks (share_effects d wallet job bm finds) ≡ 0)
unfolding share_effects shares blocks
share_effects_lem d wallet job bm true = (
  ((refl, refl), block_effects-IsOwn wallet job bm d),
  omega (arith, block_effects-shares d bm),
  λ e. absurd (cc),
)
share_effects_lem d wallet job bm false = (((refl, refl), tt), refl, λ e. refl)

no_blocks : (es : List Effect) → es ≡ [] → 0 < blocks es → ⊥
unfolding blocks
no_blocks es e h = omega (arith, ap blocks e, h)

module _ (float : Float) (r : Rules float) (d : Daemon) (now : ℕ) (seconds : float.F) (drawn : Bool)
    (wallet : Bytes) (jobs : List Job) (job : Job) (bm : Bytes) (claimed : Option Bytes)
    (hashes : Hashes) (algo : Bytes) (p : Pace float) where
  abbrev pub effects : List Effect
  effects =
      (after_submit float r d now seconds drawn wallet jobs job bm claimed hashes algo p).effects

  abbrev hashed : Option Bytes
  hashed = hash_of hashes algo bm

  abbrev verdict : Verdict
  verdict = verify_share job (less p.score r.trust_score || drawn) claimed hashed

  settled :
      (v : Verdict)
      → ((settle float r d now seconds wallet jobs job bm p v).effects ≡ [])
        ⊎ ((finds : Bool) × (v ≡ valid finds)
            × ((settle float r d now seconds wallet jobs job bm p v).effects
                ≡ share_effects d wallet job bm finds))
  unfolding settle
  settled dropped = inl refl
  settled distrusted = inl refl
  settled (valid finds) = inr (finds, refl, refl)

  -- A share either has no effect, or it is sent to the master once. What is sent is the wallet of
  -- the miner with the difficulty of the job, and what goes to the daemon or is reported is the
  -- block of this share; and only where the hash of that block, under the algorithm of the last
  -- known job, meets the difficulty of the job and of the chain. Any share of a miner below the
  -- trust score is sent only where the hash of its block meets the difficulty of the job.
  pub effects-IsProved :
      ((effects ≡ []) ⊎ (shares effects ≡ 1))
      × All (IsOwn wallet job bm) effects
      × (0 < blocks effects → IsProved job (hash_of hashes algo bm) true)
      × (less p.score r.trust_score ≡ true
          → (effects ≡ []) ⊎ ((finds : Bool) × IsProved job (hash_of hashes algo bm) finds))
  unfolding after_submit
  effects-IsProved = elim (settled verdict) [
    | inl none_sent ↦ (
      inl none_sent,
      rw none_sent tt,
      λ h. absurd (no_blocks effects none_sent h),
      λ h. inl none_sent,
    )
    | inr (finds, v, e) ↦
        let (own, once, none_found) = share_effects_lem d wallet job bm finds in
        (
          inr (ap shares e ∙ once),
          rw e own,
          λ h. elim (Bool-cases finds) [
            | inl yes_block ↦ subst (IsProved job hashed) yes_block (
                valid_share-IsProved job (less p.score r.trust_score || drawn) claimed hashed finds
                  (inl yes_block) v)
            | inr no_block ↦ absurd (omega (arith, none_found no_block, ap blocks e, h))
          ],
          λ low. inr (
            finds,
            valid_share-IsProved job (less p.score r.trust_score || drawn) claimed hashed finds
                (inr (inl (ground (arith, low)))) v,
          ),
        )
  ]
