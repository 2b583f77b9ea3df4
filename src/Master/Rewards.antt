-- ===== src/Master/Rewards.antt =====
-- `UpdatePendingBals` of cmd/master/updater.go: how the reward of a block is shared out.
pub mod Sums
pub mod Pending
pub mod Twice
use xelis_pool.Common.{
  ℕ, ◌+◌, ◌-◌, ◌%◌, ◌^◌, Bool, true, false, Option, none, some, List, [], ◌∷◌, ◌++◌, length, ltb,
  leb, ◌==◌, if◌then◌else◌,
}
use xelis_pool.Common.Bytes.{Bytes}
use xelis_pool.Common.Hex.{decode_hex}
use xelis_pool.Common.Assoc.{Assoc, insert, lookup_or}
use xelis_pool.Serializer.Reader.{Error}
use xelis_pool.Database.Records.{Share, UnconfTx, PendingBals, AddrInfo}
use xelis_pool.Database.Encode.{serialize_pending_bals, serialize_addr_info}
use xelis_pool.Database.Decode.{deserialize_share, deserialize_pending_bals, deserialize_addr_info}
use xelis_pool.Master.Float.{Float}
use xelis_pool.Master.Store.{Store}

-- wallet.TransactionEntry, as far as it is read.
pub record Transfer : Type 0 where
  pub topoheight : ℕ
  pub reward : ℕ
  pub hash : Bytes

-- `sort.SliceStable` by height.
unfoldable pub insert_sorted : Transfer → List Transfer → List Transfer
insert_sorted t [] = t ∷ []
insert_sorted t (u ∷ us) =
    let rest = insert_sorted t us in if leb t.topoheight u.topoheight then t ∷ u ∷ us else u ∷ rest

unfoldable pub sort_transfers : List Transfer → List Transfer
unfolding insert_sorted
sort_transfers [] = []
sort_transfers (t ∷ ts) = insert_sorted t (sort_transfers ts)

-- `m[k] += x`, in uint64.
unfoldable pub add_to : Bytes → ℕ → Assoc ℕ → Assoc ℕ
add_to k x m = insert k ((lookup_or 0 k m + x) % 2 ^ 64) m

module _ (float : Float) where
  open float use {F, of_ℕ, to_ℕ, add, sub, mul, div}

  -- `totHashes` and `minersTotalHashes`.
  pub record Work : Type 0 where
    pub total : F
    pub miners : Assoc F

  unfoldable pub add_share : Share → Work → Work
  add_share sh w = record {
    total = add w.total (of_ℕ sh.diff);
    miners = insert sh.wallet (add (lookup_or (of_ℕ 0) sh.wallet w.miners) (of_ℕ sh.diff)) w.miners;
  }

  -- One pass over the stored shares: what is unreadable stays, what is outdated goes, and the rest
  -- is counted. `none` is a panic.
  unfoldable pub count_shares :
      ℕ → ℕ → List (Bytes × Bytes) → Work → Option (List (Bytes × Bytes) × Work)
  unfolding add_share
  count_shares window now [] w = some ([], w)
  count_shares window now ((key, v) ∷ l) w = elim (deserialize_share v) [
    | none ↦ none
    | some (sh, e) ↦ elim e [
      | some x ↦ elim (count_shares window now l w) [
        | none ↦ none
        | some (kept, w') ↦ some ((key, v) ∷ kept, w')
      ]
      | none ↦ elim (ltb ((sh.time + window) % 2 ^ 64) now) [
        | true ↦ count_shares window now l w
        | false ↦ elim (count_shares window now l (add_share sh w)) [
          | none ↦ none
          | some (kept, w') ↦ some ((key, v) ∷ kept, w')
        ]
      ]
    ]
  ]

  -- The variables of the loop over the miners; additions are in uint64.
  pub record Split : Type 0 where
    pub bals : Assoc ℕ
    pub totals : Assoc ℕ
    pub rewarded : ℕ

  unfoldable pub split_loop : F → F → Assoc F → Split → Split
  unfolding add_to
  split_loop reward total [] s = s
  split_loop reward total ((i, v) ∷ m) s =
      let x = to_ℕ (div (mul v reward) total) in
      split_loop reward total m (record {
        bals = insert i x s.bals;
        totals = add_to i x s.totals;
        rewarded = (s.rewarded + x) % 2 ^ 64;
      })

  -- What the miners do not get goes to the fee address, also in the totals.
  unfoldable pub split_reward : Bytes → F → F → F → Assoc F → Assoc ℕ → Split
  unfolding split_loop add_to
  split_reward fee_address full reward total miners totals =
      let s =
        split_loop reward total miners (record { bals = []; totals = totals; rewarded = 0 }) in
      let bals = add_to fee_address ((to_ℕ full + 2 ^ 64 - s.rewarded) % 2 ^ 64) s.bals in
      record s { bals = bals; totals = add_to fee_address (lookup_or 0 fee_address bals) s.totals }

  -- The settings and what the clock, the daemon and the statistics say.
  pub record Setting : Type 0 where
    pub fee_address : Bytes
    pub fee_percent : F
    pub min_confs : ℕ
    pub window : ℕ
    pub now : ℕ
    pub master_height : ℕ

  pub record Progress : Type 0 where
    pub shares : List (Bytes × Bytes)
    pub txs : List UnconfTx
    pub totals : Assoc ℕ
    pub next_height : ℕ

  module _ (cfg : Setting) where
    -- `rewardNoFee * (100 - fee) / 100`
    unfoldable pub after_fee : F → F
    after_fee full = div (mul full (sub (of_ℕ 100) cfg.fee_percent)) (of_ℕ 100)

    unfoldable pub add_reward : Transfer → Bytes → List (Bytes × Bytes) → Work → Progress → Progress
    unfolding split_reward after_fee
    add_reward t hash kept w p =
        let full = of_ℕ t.reward in
        let s = split_reward cfg.fee_address full (after_fee full) w.total w.miners p.totals in
        let tx : UnconfTx = record {
          unlock_height = (t.topoheight + cfg.min_confs) % 2 ^ 64;
          txn_block_hash = hash;
          bals = s.bals;
        } in
        record {
          shares = kept;
          txs = p.txs ++ (tx ∷ []);
          totals = s.totals;
          next_height = if ltb p.next_height t.topoheight then cfg.master_height else p.next_height;
        }

    -- `none`: the error of a hash that is not 32 bytes in hexadecimal, or a panic; nothing is kept.
    unfoldable pub add_transfer : Transfer → Progress → Option Progress
    unfolding add_reward count_shares
    add_transfer t p =
        elim (count_shares cfg.window cfg.now p.shares (record { total = of_ℕ 0; miners = [] })) [
          | none ↦ none
          | some (kept, w) ↦ elim (decode_hex t.hash) [
            | none ↦ none
            | some hash ↦ if length hash == 32 then some (add_reward t hash kept w p) else none
          ]
        ]

    unfoldable pub transfer_loop : ℕ → List Transfer → Progress → Option Progress
    unfolding add_transfer
    transfer_loop last [] p = some p
    transfer_loop last (t ∷ ts) p = elim (ltb last t.topoheight) [
      | false ↦ transfer_loop last ts p
      | true ↦ elim (add_transfer t p) [ none ↦ none | some p' ↦ transfer_loop last ts p' ]
    ]

    module _ (store : Store) where
      open store use {B, put, walk}

      -- `addrInfo.BalancePending = pendBal`, by what the record deserializes to. An unreadable
      -- record is left, and a failed `Put` is only logged.
      unfoldable pub set_pending : Bytes → ℕ → Option (AddrInfo × Option Error) → B → B
      set_pending k n none b = b
      set_pending k n (some (info, some e)) b = b
      set_pending k n (some (info, none)) b =
          elim (put k (serialize_addr_info (record info { balance_pending = n })) b) [
            | none ↦ b
            | some b' ↦ b'
          ]

      unfoldable pub pending_loop : Assoc ℕ → List (Bytes × Bytes) → B → B
      unfolding set_pending
      pending_loop totals [] b = b
      pending_loop totals ((k, v) ∷ l) b =
          pending_loop totals l (set_pending k (lookup_or 0 k totals) (deserialize_addr_info v) b)

      -- The three buckets after a successful update.
      pub record Updated : Type 0 where
        pub shares : List (Bytes × Bytes)
        pub infos : B
        pub pending : Bytes

      unfoldable pub finish_update : ℕ → B → Option Progress → Option Updated
      unfolding pending_loop
      finish_update last b none = none
      finish_update last b (some p) =
          elim (serialize_pending_bals
            (record { last_height = p.next_height; unconfirmed_txs = p.txs })) [
              | none ↦ none
              | some bytes ↦ some (record {
                shares = p.shares;
                infos = pending_loop p.totals (walk b) b;
                pending = bytes;
              })
            ]

      unfoldable pub run_update :
          List Transfer → List (Bytes × Bytes) → B → PendingBals → Option Updated
      unfolding transfer_loop finish_update sort_transfers
      run_update transfers shares b old = finish_update old.last_height b (
          transfer_loop old.last_height (sort_transfers transfers) (record {
            shares = shares;
            txs = old.unconfirmed_txs;
            totals = [];
            next_height = old.last_height;
          }))

      -- The stored pending balances, if there are any; an error ends the update.
      unfoldable pub update_pending_bals :
          List Transfer → List (Bytes × Bytes) → B → Option Bytes → Option Updated
      unfolding run_update
      update_pending_bals transfers shares b none =
          run_update transfers shares b (record { last_height = 0; unconfirmed_txs = [] })
      update_pending_bals transfers shares b (some bytes) = elim (deserialize_pending_bals bytes) [
        | none ↦ none
        | some (old, e) ↦ elim e [ none ↦ run_update transfers shares b old | some x ↦ none ]
      ]
