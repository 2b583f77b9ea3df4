-- ===== src/Master/Heights/Restart.antt =====
-- What the first run after a start leaves out.
use xelis_pool.Common.{
  ℕ, ◌-◌, ◌≤◌, ◌<◌, ◌≡◌, ◌∙◌, refl, sym, ap, Option, none, some, List, [], ◌∷◌, All, arith,
}
use xelis_pool.Common.Bytes.{Bytes}
use xelis_pool.Database.Records.{PendingBals}
use xelis_pool.Database.Decode.{deserialize_pending_bals}
use xelis_pool.Database.RoundTrip.{IsPending, deserialize_pending_bals-serialize_pending_bals}
use xelis_pool.Master.Float.{Float}
use xelis_pool.Master.Store.{Store}
use xelis_pool.Master.Rewards.{
  Transfer, sort_transfers, Setting, Progress, Updated, transfer_loop, run_update,
  update_pending_bals,
}
use xelis_pool.Master.Rewards.Pending.{sort_transfers-All, run_update_stores, run_update_old}
use xelis_pool.Master.Rewards.Twice.{transfer_loop-next_height}
use xelis_pool.Master.Heights.{
  safety_margin, first_min_height, next_min_height, stored_height, Books, update_run,
}

weaken :
    {a b : ℕ} (ts : List Transfer)
    → All (λ t. t.topoheight < a) ts
    → a ≤ b
    → All (λ t. t.topoheight ≤ b) ts
weaken [] h le = tt
weaken (t ∷ ts) (ht, hts) le = (omega (arith, ht, le), weaken ts hts le)

first_min_height_fresh :
    (min_height master_height : ℕ)
    → min_height ≡ 0
    → safety_margin < master_height
    → first_min_height min_height master_height ≡ master_height - safety_margin
unfolding first_min_height
first_min_height_fresh min_height master_height fresh margin = ground arith

module _ (float : Float) (store : Store) where
  open store use {B}

  abbrev pub stored : Progress float → PendingBals
  stored p = record { last_height = p.next_height; unconfirmed_txs = p.txs }

  -- What an update starts from.
  abbrev pub start_of : List (Bytes × Bytes) → PendingBals → Progress float
  start_of shares old = record {
    shares = shares;
    txs = old.unconfirmed_txs;
    totals = [];
    next_height = old.last_height;
  }

  module _ (cfg : Setting float) where
    module _ (pending : Option Bytes) (bytes : Bytes) (old : PendingBals)
        (at : pending ≡ some bytes) (read : deserialize_pending_bals bytes ≡ some (old, none)) where
      stored_height_read : stored_height pending ≡ some old.last_height
      unfolding stored_height
      stored_height_read = rw at (rw (read, stored_height) refl)

      update_pending_bals_read :
          (ts : List Transfer) (shares : List (Bytes × Bytes)) (b : B)
          → update_pending_bals float cfg store ts shares b pending
            ≡ run_update float cfg store ts shares b old
      unfolding update_pending_bals
      update_pending_bals_read ts shares b = rw at (rw (read, update_pending_bals) refl)

    -- An update of readable pending balances stores what it comes to.
    pub update_run_lem :
        (s : Books float store) (list_transactions : ℕ → Option (List Transfer))
        (ts : List Transfer) (bytes : Bytes) (old : PendingBals) (u : Updated float cfg store)
        → s.pending ≡ some bytes
        → deserialize_pending_bals bytes ≡ some (old, none)
        → list_transactions (first_min_height s.min_height cfg.master_height) ≡ some ts
        → run_update float cfg store ts s.shares s.infos old ≡ some u
        → update_run float store cfg list_transactions s ≡ record {
          min_height =
              next_min_height (first_min_height s.min_height cfg.master_height) old.last_height;
          shares = u.shares;
          infos = u.infos;
          pending = some u.pending;
        }
    unfolding update_run
    update_run_lem s list_transactions ts bytes old u e f g h =
        rw (g, update_run)
          (rw (stored_height_read s.pending bytes old e f)
            (rw (update_pending_bals_read s.pending bytes old e f ts s.shares s.infos) (rw h refl)))

    update_run-pending :
        (s : Books float store) (list_transactions : ℕ → Option (List Transfer))
        (ts : List Transfer) (bytes : Bytes) (old : PendingBals) (u : Updated float cfg store)
        → s.pending ≡ some bytes
        → deserialize_pending_bals bytes ≡ some (old, none)
        → list_transactions (first_min_height s.min_height cfg.master_height) ≡ some ts
        → run_update float cfg store ts s.shares s.infos old ≡ some u
        → (update_run float store cfg list_transactions s).pending ≡ some u.pending
    update_run-pending s list_transactions ts bytes old u e f g h =
        ap (λ (b : Books float store). b.pending)
          (update_run_lem s list_transactions ts bytes old u e f g h)

  module _ (cfg : Setting float) (s : Books float store)
      (list_transactions : ℕ → Option (List Transfer)) (ts us : List Transfer) (bytes : Bytes)
      (old : PendingBals) (u : Transfer) (p : Progress float) where
    -- The first run of a master that was down asks the wallet from five blocks below the height of
    -- the chain on. Where the wallet answers with rewards from there to that height, at least one,
    -- and they are stored, the rewards below are lost: a later run that is given any of them alone
    -- leaves the pending transactions as the first run stored them.
    pub restart_forgets :
        s.min_height ≡ 0
        → safety_margin < cfg.master_height
        → s.pending ≡ some bytes
        → deserialize_pending_bals bytes ≡ some (old, none)
        → list_transactions (cfg.master_height - safety_margin) ≡ some ts
        → sort_transfers ts ≡ u ∷ us
        → All (λ t. cfg.master_height - safety_margin ≤ t.topoheight) ts
        → All (λ t. t.topoheight ≤ cfg.master_height) ts
        → transfer_loop float cfg old.last_height (sort_transfers ts) (start_of s.shares old)
          ≡ some p
        → IsPending (stored p)
        → (later : Setting float) (missed : List Transfer)
        → All (λ t. t.topoheight < cfg.master_height - safety_margin) missed
        → let s' = update_run float store cfg list_transactions s in
          (update_run float store later (λ m. some missed) s').pending ≡ s'.pending
    restart_forgets fresh margin at read answer sorted from to done fits later missed below =
        let (bytes', written, reread) =
          deserialize_pending_bals-serialize_pending_bals (stored p) fits in
        let asked : first_min_height s.min_height cfg.master_height ≡ cfg.master_height - 5 =
          first_min_height_fresh s.min_height cfg.master_height fresh margin in
        let s' = update_run float store cfg list_transactions s in
        let first : s'.pending ≡ some bytes' =
          update_run-pending cfg s list_transactions ts bytes old _ at read
            (ap list_transactions asked ∙ answer)
            (run_update_stores float cfg store ts s.shares s.infos old p bytes' done written) in
        let high =
          transfer_loop-next_height float cfg old.last_height (sort_transfers ts)
            (start_of s.shares old) p
            (sort_transfers-All (λ t. t.topoheight ≤ cfg.master_height) ts to) (omega arith) done in
        let lowest : (cfg.master_height - 5 ≤ u.topoheight) × (u.topoheight ≤ p.next_height) = (
          (rw sorted at (sort_transfers-All (λ t. cfg.master_height - 5 ≤ t.topoheight) ts from)).0,
          (rw sorted at high.1).0,
        ) in
        update_run-pending later s' (λ m. some missed) missed bytes' (stored p) _ first reread refl
          (run_update_old float later store missed s'.shares s'.infos (stored p) bytes'
            (weaken missed below (omega (arith, lowest))) written)
        ∙ sym first
