-- ===== src/Master/Heights.antt =====
-- The least height that `UpdatePendingBals` of cmd/master/updater.go asks the wallet from, and one
-- run of it with what the wallet answers.
pub mod Ahead
pub mod Restart
use xelis_pool.Common.{
  ℕ, ◌-◌, Bool, ◌&&◌, Option, none, some, List, [], ◌∷◌, ltb, ◌==◌, if◌then◌else◌,
}
use xelis_pool.Common.Bytes.{Bytes}
use xelis_pool.Database.Decode.{deserialize_pending_bals}
use xelis_pool.Database.Records.{PendingBals}
use xelis_pool.Master.Float.{Float}
use xelis_pool.Master.Store.{Store}
use xelis_pool.Master.Rewards.{Transfer, Setting, Updated, update_pending_bals}

-- `SAFETY_MARGIN`
abbrev pub safety_margin : ℕ
safety_margin = 5

-- Before the wallet is asked: a least height of 0 is set from the height of the chain.
unfoldable pub first_min_height : ℕ → ℕ → ℕ
first_min_height min_height master_height =
    if min_height == 0 && ltb safety_margin master_height
    then master_height - safety_margin
    else min_height

-- Once the pending balances are read: it is set from their last height.
unfoldable pub next_min_height : ℕ → ℕ → ℕ
next_min_height min_height last_height =
    if ltb safety_margin last_height then last_height - safety_margin else min_height

-- The last height of the stored pending balances; `none` where they cannot be read.
unfoldable pub stored_height : Option Bytes → Option ℕ
stored_height none = some 0
stored_height (some bytes) = elim (deserialize_pending_bals bytes) [
  | none ↦ none
  | some (old, e) ↦ elim e [ none ↦ some old.last_height | some x ↦ none ]
]

module _ (float : Float) (store : Store) where
  open store use {B}

  -- `minHeight` and the buckets.
  pub record Books : Type 0 where
    pub min_height : ℕ
    pub shares : List (Bytes × Bytes)
    pub infos : B
    pub pending : Option Bytes

  -- `list_transactions` is the wallet's answer from a height, `none` an error. Where the update
  -- fails, the buckets stay, and the least height is kept.
  unfoldable pub update_run : Setting float → (ℕ → Option (List Transfer)) → Books → Books
  unfolding first_min_height next_min_height stored_height
  update_run cfg list_transactions s =
      let asked = first_min_height s.min_height cfg.master_height in
      let kept : Books = record s { min_height = asked } in
      elim (list_transactions asked) [
        | none ↦ kept
        | some transfers ↦ elim (stored_height s.pending) [
          | none ↦ kept
          | some last ↦
              let next : Books = record s { min_height = next_min_height asked last } in
              elim (update_pending_bals float cfg store transfers s.shares s.infos s.pending) [
                | none ↦ next
                | some u ↦ record next {
                  shares = u.shares;
                  infos = u.infos;
                  pending = some u.pending;
                }
              ]
        ]
      ]
