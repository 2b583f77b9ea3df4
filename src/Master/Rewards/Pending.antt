-- ===== src/Master/Rewards/Pending.antt =====
-- What an update without a new reward does to the pending balances of the addresses.
use xelis_pool.Common.{
  ℕ, ◌≤◌, ◌<◌, ◌^◌, ◌≡◌, ◌∙◌, refl, ap, true, false, Option, none, some, List, [], ◌∷◌, ◌++◌, All,
  arith, Option-cases, inl, inr,
}
use xelis_pool.Common.Assoc.{Assoc, absent, lookup_or}
use xelis_pool.Serializer.Reader.{Error}
use xelis_pool.Common.Bytes.{Bytes, ◌=?◌, =?_refl}
use xelis_pool.Database.Records.{AddrInfo, PendingBals}
use xelis_pool.Database.Encode.{serialize_addr_info, serialize_pending_bals}
use xelis_pool.Database.Decode.{deserialize_addr_info}
use xelis_pool.Database.RoundTrip.{deserialize_addr_info-serialize_addr_info}
use xelis_pool.Database.Faults.{deserialize_addr_info-IsInfo}
use xelis_pool.Master.Float.{Float}
use xelis_pool.Master.Store.{Store}
use xelis_pool.Master.Rewards.{
  Transfer, insert_sorted, sort_transfers, Setting, Progress, transfer_loop, pending_loop,
  set_pending, finish_update, Updated, run_update,
}

abbrev IsOld : ℕ → Transfer → Type 0
IsOld last t = t.topoheight ≤ last

insert_sorted-All :
    (P : Transfer → Type 0) (t : Transfer) (ts : List Transfer)
    → P t
    → All P ts
    → All P (insert_sorted t ts)
unfolding insert_sorted
insert_sorted-All P t [] h hs = (h, tt)
insert_sorted-All P t (u ∷ us) h (hu, hus) =
    let sorted = insert_sorted-All P t us h hus in ground (arith, sorted)

pub sort_transfers-All :
    (P : Transfer → Type 0) (ts : List Transfer) → All P ts → All P (sort_transfers ts)
unfolding sort_transfers
sort_transfers-All P [] h = tt
sort_transfers-All P (t ∷ ts) h =
    insert_sorted-All P t (sort_transfers ts) h.0 (sort_transfers-All P ts h.1)

module _ (float : Float) (cfg : Setting float) where
  pub transfer_loop_old :
      (last : ℕ) (ts : List Transfer) (p : Progress float)
      → All (IsOld last) ts
      → transfer_loop float cfg last ts p ≡ some p
  unfolding transfer_loop
  transfer_loop_old last [] p h = refl
  transfer_loop_old last (t ∷ ts) p (ht, hts) = ground (arith, transfer_loop_old last ts p hts)

  module _ (store : Store) where
    open store use {B, get, put, walk, get_put}

    -- What a successful update stores.
    pub run_update_stores :
        (ts : List Transfer) (shares : List (Bytes × Bytes)) (b : B) (old : PendingBals)
        (p : Progress float) (bytes : Bytes)
        → transfer_loop float cfg old.last_height (sort_transfers ts) (record {
          shares = shares;
          txs = old.unconfirmed_txs;
          totals = [];
          next_height = old.last_height;
        })
          ≡ some p
        → serialize_pending_bals (record { last_height = p.next_height; unconfirmed_txs = p.txs })
          ≡ some bytes
        → run_update float cfg store ts shares b old
          ≡ some (record {
            shares = p.shares;
            infos = pending_loop float cfg store p.totals (walk b) b;
            pending = bytes;
          })
    unfolding run_update finish_update
    run_update_stores ts shares b old p bytes done e =
        rw (done, run_update) (rw (e, finish_update) refl)

    -- Without a new transfer the loop over the address records has empty totals.
    pub run_update_old :
        (ts : List Transfer) (shares : List (Bytes × Bytes)) (b : B) (old : PendingBals)
        (bytes : Bytes)
        → All (IsOld old.last_height) ts
        → serialize_pending_bals old ≡ some bytes
        → run_update float cfg store ts shares b old
          ≡ some (record {
            shares = shares;
            infos = pending_loop float cfg store [] (walk b) b;
            pending = bytes;
          })
    run_update_old ts shares b old bytes h e =
        let p : Progress float = record {
          shares = shares;
          txs = old.unconfirmed_txs;
          totals = [];
          next_height = old.last_height;
        } in
        run_update_stores ts shares b old p bytes
          (transfer_loop_old old.last_height (sort_transfers ts) p
            (sort_transfers-All (IsOld old.last_height) ts h))
          e

    set_pending_other :
        (j k : Bytes) (n : ℕ) (r : Option (AddrInfo × Option Error)) (b : B)
        → (k =? j) ≡ false
        → get j (set_pending float cfg store k n r b) ≡ get j b
    unfolding set_pending
    set_pending_other j k n none b ne = refl
    set_pending_other j k n (some (info, some e)) b ne = refl
    set_pending_other j k n (some (info, none)) b ne =
        let new : AddrInfo = record info { balance_pending = n } in
        elim (Option-cases (put k (serialize_addr_info new) b)) [
          | inl failed ↦ ground (arith, failed)
          | inr (b', done) ↦ ground (arith, done, get_put k j (serialize_addr_info new) b b' done)
        ]

    pending_loop_other :
        (j : Bytes) (totals : Assoc ℕ) (l : List (Bytes × Bytes)) (b : B)
        → absent j l ≡ true
        → get j (pending_loop float cfg store totals l b) ≡ get j b
    unfolding pending_loop absent
    pending_loop_other j totals [] b h = refl
    pending_loop_other j totals ((k, v) ∷ l) b h =
        pending_loop_other j totals l _ (ground arith)
        ∙ set_pending_other j k (lookup_or 0 k totals) (deserialize_addr_info v) b (ground arith)

    module _ (k v : Bytes) (info : AddrInfo) (read : deserialize_addr_info v ≡ some (info, none))
        (stores : (key bytes : Bytes) (b : B) → (b' : B) × (put key bytes b ≡ some b')) where
      -- The record of the address can be read, and has the pending balance and the rest as before.
      abbrev pub HasPending : ℕ → B → Type 0
      HasPending n b =
          ((bytes : Bytes) × (get k b ≡ some bytes)
            × (deserialize_addr_info bytes ≡ some (record info { balance_pending = n }, none)))

      pending_loop-HasPending :
          (totals : Assoc ℕ) (before after : List (Bytes × Bytes)) (b : B)
          → absent k after ≡ true
          → lookup_or 0 k totals < 2 ^ 64
          → HasPending
              (lookup_or 0 k totals)
              (pending_loop float cfg store totals (before ++ ((k, v) ∷ after)) b)
      unfolding pending_loop set_pending
      pending_loop-HasPending totals [] after b once small =
          let new : AddrInfo = record info { balance_pending = lookup_or 0 k totals } in
          let (b', done) = stores k (serialize_addr_info new) b in
          let set : set_pending float cfg store k (lookup_or 0 k totals) (deserialize_addr_info v) b
              ≡ b' =
            rw (read, set_pending) (rw done refl) in
          let (bal, pend, paid) = deserialize_addr_info-IsInfo v read in
          (
            serialize_addr_info new,
            pending_loop_other k totals after _ once
                ∙ ap (get k) set
                ∙ ground (arith, =?_refl k, get_put k k (serialize_addr_info new) b b' done),
            deserialize_addr_info-serialize_addr_info new (bal, small, paid),
          )
      pending_loop-HasPending totals ((j, w) ∷ before) after b once small =
          pending_loop-HasPending totals before after _ once small

      -- With no transfer above the last height an update succeeds, keeps the shares and rewrites
      -- the same pending transactions, and yet the pending balance of every address whose record
      -- can be read is 0 after it, whatever those transactions still hold for it; its balance and
      -- what it was paid stay. The walk shows the address with its record, once from there on, and
      -- the database stores what is put.
      pub old_transfers_forget_pending :
          (ts : List Transfer) (shares : List (Bytes × Bytes)) (b : B) (old : PendingBals)
          (bytes : Bytes) (before after : List (Bytes × Bytes))
          → All (IsOld old.last_height) ts
          → serialize_pending_bals old ≡ some bytes
          → walk b ≡ before ++ ((k, v) ∷ after)
          → absent k after ≡ true
          → (u : Updated float cfg store) × (run_update float cfg store ts shares b old ≡ some u)
            × (u.shares ≡ shares)
            × (u.pending ≡ bytes)
            × HasPending 0 u.infos
      unfolding lookup_or
      old_transfers_forget_pending ts shares b old bytes before after h e at once = (
        record {
          shares = shares;
          infos = pending_loop float cfg store [] (walk b) b;
          pending = bytes;
        },
        run_update_old ts shares b old bytes h e,
        refl,
        refl,
        rw at (pending_loop-HasPending [] before after b once (omega arith)),
      )
