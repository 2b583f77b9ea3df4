-- ===== src/Master/Confirm/Payment.antt =====
-- A run of `CheckWithdraw` that credits a transaction, from the stored bytes to the stored bytes.
use xelis_pool.Common.{ℕ, ◌<◌, ◌≡◌, ◌∙◌, refl, true, false, none, some, List, ◌∷◌, Option, arith}
use xelis_pool.Common.Bytes.{Bytes, codes, ◌=?◌, =?_refl}
use xelis_pool.Common.Assoc.{Separate}
use xelis_pool.Database.Records.{UnconfTx, PendingBals, get_total_money}
use xelis_pool.Database.Encode.{serialize_pending_bals}
use xelis_pool.Database.Decode.{deserialize_pending_bals}
use xelis_pool.Database.RoundTrip.{IsPending, deserialize_pending_bals-serialize_pending_bals}
use xelis_pool.Pow.Algorithm.{to_lower}
use xelis_pool.Master.Float.{Float}
use xelis_pool.Master.Store.{Store, balance_at}
use xelis_pool.Master.Confirm.{
  Block, pending_key, multiplier, credit_loop, Checked, check_withdraw, by_first, by_block,
  credited,
}
use xelis_pool.Master.Confirm.Credits.{balance_after, credit_loop_lem}

-- The daemon knows the block, which is not orphaned, and its reward.
pub record IsGood (block : Block) (reward : ℕ) : Type 0 where
  pub kept : (to_lower block.block_type =? codes "orphaned") ≡ false
  pub paid : block.miner_reward ≡ some reward

module _ (float : Float) (store : Store) (banned : List Bytes) (height : ℕ)
    (block_of : Bytes → Option Block) (debt : float.F) where
  open store use {B, get, put, get_put}

  -- What is left to do for the first transaction.
  abbrev shorter : PendingBals → List UnconfTx → PendingBals
  shorter p rest = record p { unconfirmed_txs = rest }

  credited_lem :
      (b b' pend pend' : B) (p : PendingBals) (rest : List UnconfTx) (v : Bytes)
      → serialize_pending_bals (shorter p rest) ≡ some v
      → put pending_key v pend ≡ some pend'
      → credited float store banned height block_of debt b pend p rest (some b')
        ≡ some (record { infos = b'; pending = pend'; changed = true })
  unfolding credited
  credited_lem b b' pend pend' p rest v e f = rw (e, credited) (rw f)

  runs :
      (b b' pend : B) (p : PendingBals) (tx : UnconfTx) (rest : List UnconfTx) (bytes : Bytes)
      (block : Block) (reward : ℕ)
      → get pending_key pend ≡ some bytes
      → deserialize_pending_bals bytes ≡ some (p, none)
      → p.unconfirmed_txs ≡ tx ∷ rest
      → tx.unlock_height < height
      → block_of tx.txn_block_hash ≡ some block
      → IsGood block reward
      → credit_loop float store banned (multiplier float reward (get_total_money tx) debt) tx.bals b
        ≡ some b'
      → check_withdraw float store banned height block_of debt b pend
        ≡ credited float store banned height block_of debt b pend p rest (some b')
  unfolding check_withdraw by_first by_block
  runs b b' pend p tx rest bytes block reward g d first ripe found good ok =
      ground (arith, g, d, first, found, good.kept, good.paid, ok)

  -- Where the first pending transaction is stored, its unlock height is below the height, the
  -- daemon knows its block, which is not orphaned, with a reward, the crediting of its balances
  -- succeeds and the bucket of pending transactions takes any value: the update returns true; the
  -- balance of each address is the one after the crediting; and the stored pending transactions are
  -- read back as the rest, with the same last height. The keys of the transaction's balances are
  -- distinct, and the rest fits its encoding.
  pub check_withdraw_pays :
      (b b' pend : B) (p : PendingBals) (tx : UnconfTx) (rest : List UnconfTx) (bytes : Bytes)
      (block : Block) (reward : ℕ)
      → get pending_key pend ≡ some bytes
      → deserialize_pending_bals bytes ≡ some (p, none)
      → p.unconfirmed_txs ≡ tx ∷ rest
      → tx.unlock_height < height
      → block_of tx.txn_block_hash ≡ some block
      → IsGood block reward
      → Separate tx.bals
      → IsPending (shorter p rest)
      → credit_loop float store banned (multiplier float reward (get_total_money tx) debt) tx.bals b
        ≡ some b'
      → ((v : Bytes) → (pend' : B) × (put pending_key v pend ≡ some pend'))
      → (r : Checked float store banned) × (check_withdraw float store banned height block_of debt b
            pend
          ≡ some r)
        × (r.changed ≡ true)
        × ((k : Bytes)
            → balance_at store k r.infos
              ≡ balance_after float store banned
                  (multiplier float reward (get_total_money tx) debt)
                  tx.bals
                  k
                  (balance_at store k b))
        × (v : Bytes) × (get pending_key r.pending ≡ some v)
        × (deserialize_pending_bals v ≡ some (shorter p rest, none))
  check_withdraw_pays b b' pend p tx rest bytes block reward g d first ripe found good keys fits ok
        takes =
      let m = multiplier float reward (get_total_money tx) debt in
      let (v, written, back) =
        deserialize_pending_bals-serialize_pending_bals (shorter p rest) fits in
      let (pend', stored) = takes v in
      (
        record { infos = b'; pending = pend'; changed = true },
        runs b b' pend p tx rest bytes block reward g d first ripe found good ok
            ∙ credited_lem b b' pend pend' p rest v written stored,
        refl,
        λ k. credit_loop_lem float store banned m tx.bals b b' k keys ok,
        v,
        ground (arith, get_put pending_key pending_key v pend pend' stored, =?_refl pending_key),
        back,
      )
