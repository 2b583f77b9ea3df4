-- ===== src/Master/Rewards/Twice.antt =====
-- Whether a reward is shared out once: what the last height of the pending balances is for.
use xelis_pool.Common.{
  ℕ, ◌≤◌, ◌<◌, ◌≡◌, refl, ap, ltb, Bool-cases, Option-cases, inl, inr, true, some, List, [], ◌∷◌,
  ◌++◌, All, arith, if◌then◌else◌,
}
use xelis_pool.Database.Records.{UnconfTx, get_total_money}
use xelis_pool.Master.Float.{Float}
use xelis_pool.Master.Rewards.Pending.{transfer_loop_old}
use xelis_pool.Master.Rewards.Sums.{add_transfer-add_reward, add_transfer-shares_out}
use xelis_pool.Master.Rewards.{
  Transfer, Work, Setting, Progress, add_reward, add_transfer, transfer_loop,
}

module _ (float : Float) where
  open float use {of_ℕ, to_ℕ}

  abbrev no_work : Work float
  no_work = record { total = of_ℕ 0; miners = [] }

  -- One pending transaction is new, and its balances have the sum of the reward.
  abbrev pub IsShared : Transfer → Progress float → Progress float → Type 0
  IsShared t p p' =
      (tx : UnconfTx) × (p'.txs ≡ p.txs ++ (tx ∷ [])) × (get_total_money tx ≡ to_ℕ (of_ℕ t.reward))

  module _ (cfg : Setting float) where
    abbrev next_of : Transfer → Progress float → ℕ
    next_of t p = if ltb p.next_height t.topoheight then cfg.master_height else p.next_height

    add_transfer-next_height :
        (t : Transfer) (p p' : Progress float)
        → add_transfer float cfg t p ≡ some p'
        → p'.next_height ≡ next_of t p
    unfolding add_reward
    add_transfer-next_height t p p' e =
        let (hash, kept, w, g, same) = add_transfer-add_reward float cfg t p p' e in
        ap (λ (q : Progress float). q.next_height) same

    -- The pass ends at a height that is not below any of the transfers, where the height of the
    -- chain is not.
    pub transfer_loop-next_height :
        (last : ℕ) (ts : List Transfer) (p p' : Progress float)
        → All (λ t. t.topoheight ≤ cfg.master_height) ts
        → last ≤ p.next_height
        → transfer_loop float cfg last ts p ≡ some p'
        → (p.next_height ≤ p'.next_height) × All (λ t. t.topoheight ≤ p'.next_height) ts
    unfolding transfer_loop
    transfer_loop-next_height last [] p p' h le e = (ground (arith, e), tt)
    transfer_loop-next_height last (t ∷ ts) p p' (ht, hts) le e =
        elim (Bool-cases (ltb last t.topoheight)) [
          | inr old ↦
              let e' : transfer_loop float cfg last ts p ≡ some p' = ground (arith, old, e) in
              let (up, below) = transfer_loop-next_height last ts p p' hts le e' in
              (up, (ground (arith, old, up, le), below))
          | inl new ↦ elim (Option-cases (add_transfer float cfg t p)) [
            | inl broken ↦ absurd (ground (arith, new, broken, e))
            | inr (q, added) ↦
                let e' : transfer_loop float cfg last ts q ≡ some p' =
                  ground (arith, new, added, e) in
                let moved = add_transfer-next_height t p q added in
                let (up, below) =
                  transfer_loop-next_height last ts q p' hts (ground (arith, moved, ht, le)) e' in
                (ground (arith, moved, up, ht), (ground (arith, moved, up, ht), below))
          ]
        ]

    -- Transfers that the chain's height covers are shared out once: whatever an update adds of
    -- them, a later one from the height that it stored takes no more of them, under any settings
    -- and whatever else it holds.
    pub second_pass_adds_nothing :
        (last : ℕ) (ts : List Transfer) (p p' q : Progress float) (later : Setting float)
        → All (λ t. t.topoheight ≤ cfg.master_height) ts
        → p.next_height ≡ last
        → transfer_loop float cfg last ts p ≡ some p'
        → transfer_loop float later p'.next_height ts q ≡ some q
    second_pass_adds_nothing last ts p p' q later h start e =
        transfer_loop_old float later p'.next_height ts q
          (transfer_loop-next_height last ts p p' h (omega (arith, start)) e).1

    -- A reward above the height of the chain that the master knows is shared out twice: where an
    -- update adds it last, and the shares can be read again, every later update that meets it from
    -- the height that was stored adds it again; both times the balances have the sum of the whole
    -- reward.
    pub ahead_of_chain_counts_twice :
        (t : Transfer) (p p' r q : Progress float) (later : Setting float) (ts : List Transfer)
        → cfg.master_height < t.topoheight
        → p.next_height < t.topoheight
        → add_transfer float cfg t p ≡ some p'
        → add_transfer float later t r ≡ some q
        → (transfer_loop float later p'.next_height (t ∷ ts) r
            ≡ transfer_loop float later p'.next_height ts q)
          × IsShared t p p'
          × IsShared t r q
    unfolding transfer_loop
    ahead_of_chain_counts_twice t p p' r q later ts ahead behind first again =
        let below : ltb p'.next_height t.topoheight ≡ true =
          ground (arith, ahead, behind, add_transfer-next_height t p p' first) in
        (
          rw (below, transfer_loop) (rw again refl),
          add_transfer-shares_out float cfg t p p' first,
          add_transfer-shares_out float later t r q again,
        )
