-- ===== src/Master/Heights/Ahead.antt =====
-- Two runs of the update with a reward above the height that the master knows of the chain.
use xelis_pool.Common.{◌<◌, ◌≡◌, ◌∙◌, refl, ap, ltb, true, none, some, List, [], ◌∷◌, ◌++◌, arith}
use xelis_pool.Common.Bytes.{Bytes}
use xelis_pool.Database.Records.{PendingBals, UnconfTx, get_total_money}
use xelis_pool.Database.Decode.{deserialize_pending_bals}
use xelis_pool.Database.RoundTrip.{IsPending, deserialize_pending_bals-serialize_pending_bals}
use xelis_pool.Master.Float.{Float}
use xelis_pool.Master.Store.{Store}
use xelis_pool.Master.Rewards.{
  Transfer, sort_transfers, Setting, Progress, add_transfer, transfer_loop,
}
use xelis_pool.Master.Rewards.Pending.{run_update_stores}
use xelis_pool.Master.Rewards.Twice.{ahead_of_chain_counts_twice}
use xelis_pool.Master.Heights.{Books, update_run}
use xelis_pool.Master.Heights.Restart.{start_of, stored, update_run_lem}

one_sorted : (t : Transfer) → sort_transfers (t ∷ []) ≡ t ∷ []
unfolding sort_transfers
one_sorted t = refl

module _ (float : Float) (store : Store) where
  open float use {of_ℕ, to_ℕ}

  -- The shares and the pending balances that a run leaves are those of the progress.
  abbrev pub Leaves : Books float store → Progress float → Type 0
  Leaves s p =
      ((bytes : Bytes) × (s.pending ≡ some bytes)
        × (deserialize_pending_bals bytes ≡ some (stored float store p, none))
        × (s.shares ≡ p.shares))

  update_run-Leaves :
      (cfg : Setting float) (s : Books float store) (t : Transfer) (bytes : Bytes)
      (old : PendingBals) (p : Progress float)
      → s.pending ≡ some bytes
      → deserialize_pending_bals bytes ≡ some (old, none)
      → transfer_loop float cfg old.last_height (t ∷ []) (start_of float store s.shares old)
        ≡ some p
      → IsPending (stored float store p)
      → Leaves (update_run float store cfg (λ m. some (t ∷ [])) s) p
  update_run-Leaves cfg s t bytes old p at read done fits =
      let (bytes', written, reread) =
        deserialize_pending_bals-serialize_pending_bals (stored float store p) fits in
      let same =
        update_run_lem float store cfg s (λ m. some (t ∷ [])) (t ∷ []) bytes old _ at read refl
          (run_update_stores float cfg store (t ∷ []) s.shares s.infos old p bytes'
            (rw (one_sorted t) done) written) in
      (
        bytes',
        ap (λ (b : Books float store). b.pending) same,
        reread,
        ap (λ (b : Books float store). b.shares) same,
      )

  -- A wallet that lists one reward, above the height of the chain that the master knows and above
  -- the last height of the pending balances, in two runs in a row has it paid twice: where the
  -- shares can be read in both runs and what they come to can be stored, the pending transactions
  -- after the second are those before the first and two more, each with the sum of the whole
  -- reward.
  pub ahead_of_chain_pays_twice :
      (cfg later : Setting float) (s : Books float store) (t : Transfer) (bytes : Bytes)
      (old : PendingBals) (p q : Progress float)
      → s.pending ≡ some bytes
      → deserialize_pending_bals bytes ≡ some (old, none)
      → cfg.master_height < t.topoheight
      → old.last_height < t.topoheight
      → add_transfer float cfg t (start_of float store s.shares old) ≡ some p
      → IsPending (stored float store p)
      → add_transfer float later t (start_of float store p.shares (stored float store p)) ≡ some q
      → IsPending (stored float store q)
      → let first = update_run float store cfg (λ m. some (t ∷ [])) s in
        let second = update_run float store later (λ m. some (t ∷ [])) first in
        Leaves second q
        × ((a : UnconfTx) × (b : UnconfTx) × (q.txs ≡ (old.unconfirmed_txs ++ (a ∷ [])) ++ (b ∷ []))
            × (get_total_money a ≡ to_ℕ (of_ℕ t.reward))
            × (get_total_money b ≡ to_ℕ (of_ℕ t.reward)))
  ahead_of_chain_pays_twice cfg later s t bytes old p q at read ahead behind one fits two fits' =
      let new : ltb old.last_height t.topoheight ≡ true = ground arith in
      let done : transfer_loop float cfg old.last_height (t ∷ [])
            (start_of float store s.shares old)
          ≡ some p =
        unfold transfer_loop in rw (new, transfer_loop) (rw one refl) in
      let (again, (a, grows, whole), (b, grows', whole')) =
        ahead_of_chain_counts_twice float cfg t (start_of float store s.shares old) p
          (start_of float store p.shares (stored float store p)) q later [] ahead behind one two in
      let (bytes', at', read', kept) = update_run-Leaves cfg s t bytes old p at read done fits in
      let first = update_run float store cfg (λ m. some (t ∷ [])) s in
      let done' : transfer_loop float later p.next_height (t ∷ [])
            (start_of float store first.shares (stored float store p))
          ≡ some q =
        rw kept (again ∙ (unfold transfer_loop in refl)) in
      (
        update_run-Leaves later first t bytes' (stored float store p) q at' read' done' fits',
        (a, b, grows' ∙ ap (λ (l : List UnconfTx). l ++ (b ∷ [])) grows, whole, whole'),
      )
