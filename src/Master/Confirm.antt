-- ===== src/Master/Confirm.antt =====
-- `CheckWithdraw` of cmd/master/withdraw.go: the first pending transaction is credited to the
-- balances once its block has enough confirmations.
pub mod Credits
pub mod Payment
use xelis_pool.Common.{
  ℕ, ◌+◌, ◌%◌, ◌^◌, Bool, true, false, ◌||◌, Option, none, some, List, [], ◌∷◌, ltb, if◌then◌else◌,
}
use xelis_pool.Common.Bytes.{Bytes, codes, ◌=?◌}
use xelis_pool.Common.Assoc.{Assoc}
use xelis_pool.Database.Records.{AddrInfo, no_info, UnconfTx, PendingBals, get_total_money}
use xelis_pool.Database.Encode.{serialize_addr_info, serialize_pending_bals}
use xelis_pool.Database.Decode.{deserialize_addr_info, deserialize_pending_bals}
use xelis_pool.Pow.Algorithm.{to_lower}
use xelis_pool.Master.Float.{Float}
use xelis_pool.Master.Store.{Store}

-- daemon.Block, as far as it is read.
pub record Block : Type 0 where
  pub block_type : Bytes
  pub miner_reward : Option ℕ

abbrev pub pending_key : Bytes
pending_key = codes "pending"

-- `config.BANNED_ADDRESSES`
unfoldable pub is_banned : List Bytes → Bytes → Bool
is_banned [] a = false
is_banned (x ∷ xs) a = a =? x || is_banned xs a

-- `addrInfo.Balance += n`, in uint64; a banned address loses its balances.
unfoldable pub credit_info : Bool → ℕ → AddrInfo → AddrInfo
credit_info banned n info =
    if banned
    then record info { balance = 0; balance_pending = 0 }
    else record info { balance = (info.balance + n) % 2 ^ 64 }

-- The record of an address, the zero value where there is none; `none` is an error.
unfoldable pub stored_info : Option Bytes → Option AddrInfo
stored_info none = some no_info
stored_info (some v) = elim (deserialize_addr_info v) [
  | none ↦ none
  | some (info, e) ↦ elim e [ none ↦ some info | some x ↦ none ]
]

module _ (float : Float) where
  open float use {F, of_ℕ, to_ℕ, sub, mul, div, lt}

  -- DEV_TAX is 0. A debt of the pool doubles the payment, a debt of the miners halves it.
  unfoldable pub multiplier : ℕ → ℕ → F → F
  multiplier reward total debt =
      let paid : F = div (mul (of_ℕ reward) (of_ℕ 1)) (of_ℕ total) in
      let capped : F = if lt (of_ℕ 1) paid then of_ℕ 1 else paid in
      if lt (of_ℕ 50) debt
      then mul capped (of_ℕ 2)
      else if lt debt (sub (of_ℕ 0) (of_ℕ 10))
      then mul capped (div (of_ℕ 1) (of_ℕ 2))
      else capped

  -- `uint64(float64(v) * multiplier)`
  unfoldable pub scaled : F → ℕ → ℕ
  scaled m v = to_ℕ (mul (of_ℕ v) m)

  module _ (store : Store) (banned : List Bytes) where
    open store use {B, get, put}

    unfoldable pub credit_one : F → Bytes → ℕ → B → Option B
    unfolding stored_info credit_info is_banned scaled
    credit_one m k v b = elim (stored_info (get k b)) [
      | none ↦ none
      | some info ↦
          put k (serialize_addr_info (credit_info (is_banned banned k) (scaled m v) info)) b
    ]

    -- The loop over the balances of a transaction; `none` is an error.
    unfoldable pub credit_loop : F → Assoc ℕ → B → Option B
    unfolding credit_one
    credit_loop m [] b = some b
    credit_loop m ((k, v) ∷ bals) b = elim (credit_one m k v b) [
      | none ↦ none
      | some b' ↦ credit_loop m bals b'
    ]

    -- The two buckets after the update, and whether balances changed.
    pub record Checked : Type 0 where
      pub infos : B
      pub pending : B
      pub changed : Bool

    -- The settings: the height, the answer of the daemon (`none` is an error), and the debt.
    module _ (height : ℕ) (block_of : Bytes → Option Block) (debt : F) where
      -- The first transaction is given up; an error of the `Put` is ignored. `none` is a panic.
      unfoldable pub give_up : B → B → PendingBals → List UnconfTx → Option Checked
      give_up b pend p rest = elim (serialize_pending_bals (record p { unconfirmed_txs = rest })) [
        | none ↦ none
        | some bytes ↦ elim (put pending_key bytes pend) [
          | none ↦ some (record { infos = b; pending = pend; changed = false })
          | some pend' ↦ some (record { infos = b; pending = pend'; changed = false })
        ]
      ]

      -- The credited balances and the shorter list. When the last `Put` fails, all is rolled back,
      -- but the function still returns true.
      unfoldable pub credited : B → B → PendingBals → List UnconfTx → Option B → Option Checked
      credited b pend p rest none = some (record { infos = b; pending = pend; changed = false })
      credited b pend p rest (some b') =
          elim (serialize_pending_bals (record p { unconfirmed_txs = rest })) [
            | none ↦ none
            | some bytes ↦ elim (put pending_key bytes pend) [
              | none ↦ some (record { infos = b; pending = pend; changed = true })
              | some pend' ↦ some (record { infos = b'; pending = pend'; changed = true })
            ]
          ]

      -- What the daemon says of the block of the first transaction.
      unfoldable pub by_block :
          B → B → PendingBals → UnconfTx → List UnconfTx → Option Block → Option Checked
      unfolding give_up credited credit_loop multiplier
      by_block b pend p tx rest none =
          if ltb ((tx.unlock_height + 10) % 2 ^ 64) height
          then give_up b pend p rest
          else some (record { infos = b; pending = pend; changed = false })
      by_block b pend p tx rest (some block) =
          if to_lower block.block_type =? codes "orphaned"
          then give_up b pend p rest
          else elim block.miner_reward [
            | none ↦ some (record { infos = b; pending = pend; changed = false })
            | some reward ↦
                credited b pend p rest
                  (credit_loop (multiplier reward (get_total_money tx) debt) tx.bals b)
          ]

      unfoldable pub by_first : B → B → PendingBals → List UnconfTx → Option Checked
      unfolding by_block
      by_first b pend p [] = some (record { infos = b; pending = pend; changed = false })
      by_first b pend p (tx ∷ rest) =
          if ltb tx.unlock_height height
          then by_block b pend p tx rest (block_of tx.txn_block_hash)
          else some (record { infos = b; pending = pend; changed = false })

      unfoldable pub check_withdraw : B → B → Option Checked
      unfolding by_first
      check_withdraw b pend = elim (get pending_key pend) [
        | none ↦ some (record { infos = b; pending = pend; changed = false })
        | some bytes ↦ elim (deserialize_pending_bals bytes) [
          | none ↦ none
          | some (p, e) ↦ elim e [
            | some x ↦ some (record { infos = b; pending = pend; changed = false })
            | none ↦ by_first b pend p p.unconfirmed_txs
          ]
        ]
      ]
