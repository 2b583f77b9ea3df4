-- ===== src/Master/Rewards/Sums.antt =====
-- The shares of a reward add up to the reward, whatever the floating-point arithmetic gives.
use xelis_pool.Common.{
  ℕ, ◌+◌, ◌-◌, ◌%◌, ◌^◌, ◌<◌, ◌≡◌, refl, true, none, some, List, [], ◌∷◌, ◌++◌, Option-cases,
  Bool-cases, inl, inr, ltb, arith,
}
use mathlib.Core.Path.{subst}
use xelis_pool.Common.Hex.{decode_hex}
use xelis_pool.Database.Decode.{deserialize_share}
use xelis_pool.Common.Bytes.{Bytes, =?_iff}
use xelis_pool.Common.Assoc.{
  Assoc, insert, lookup_or, absent, Separate, Apart, absent-insert, insert-Separate,
  lookup_or-absent,
}
use xelis_pool.Database.Records.{Share, UnconfTx, total_from, get_total_money}
use xelis_pool.Master.Float.{Float}
use xelis_pool.Master.Rewards.{
  Work, Split, add_share, count_shares, add_transfer, add_to, split_loop, split_reward, Setting,
  Progress, Transfer, after_fee, add_reward,
}

sum_bals : Assoc ℕ → ℕ
sum_bals [] = 0
sum_bals ((k, v) ∷ m) = v + sum_bals m

total_from-sum_bals :
    (a : ℕ) (m : Assoc ℕ) → a < 2 ^ 64 → total_from a m ≡ (a + sum_bals m) % 2 ^ 64
unfolding total_from sum_bals
total_from-sum_bals a [] h = omega arith
total_from-sum_bals a ((k, v) ∷ m) h =
    omega (arith, total_from-sum_bals ((a + v) % 2 ^ 64) m (omega arith))

sum_bals-insert :
    (k : Bytes) (v : ℕ) (m : Assoc ℕ) → sum_bals (insert k v m) + lookup_or 0 k m ≡ sum_bals m + v
unfolding sum_bals insert lookup_or
sum_bals-insert k v [] = omega arith
sum_bals-insert k v ((i, w) ∷ m) = ground (arith, sum_bals-insert k v m)

abbrev no_bals : Assoc ℕ
no_bals = []

module _ (float : Float) where
  open float use {F, to_ℕ, mul, div}

  Apart-insert :
      (k : Bytes) (x : ℕ) (m : Assoc F) (seen : Assoc ℕ)
      → absent k m ≡ true
      → Apart m seen
      → Apart m (insert k x seen)
  unfolding absent
  Apart-insert k x [] seen h a = tt
  Apart-insert k x ((j, v) ∷ m) seen h (a, as') = (
    ground (arith, absent-insert j k x seen, =?_iff j k, =?_iff k j),
    Apart-insert k x m seen (ground arith) as',
  )

  split_loop-sum :
      (reward total : F) (m : Assoc F) (s : Split float)
      → Separate m
      → Apart m s.bals
      → sum_bals s.bals % 2 ^ 64 ≡ s.rewarded
      → sum_bals (split_loop float reward total m s).bals % 2 ^ 64
        ≡ (split_loop float reward total m s).rewarded
  unfolding split_loop
  split_loop-sum reward total [] s d a e = e
  split_loop-sum reward total ((i, v) ∷ m) s (d, ds) (a, as') e =
      let x = to_ℕ (div (mul v reward) total) in
      split_loop-sum reward total m
        (record {
          bals = insert i x s.bals;
          totals = add_to i x s.totals;
          rewarded = (s.rewarded + x) % 2 ^ 64;
        })
        ds (Apart-insert i x m s.bals d as')
        (omega (arith, sum_bals-insert i x s.bals, lookup_or-absent 0 i s.bals a))

  Apart-nil : (m : Assoc F) → Apart {W = F} m (no_bals)
  unfolding absent
  Apart-nil [] = tt
  Apart-nil ((k, v) ∷ m) = (refl, Apart-nil m)

  split_reward-sum :
      (fee_address : Bytes) (full reward total : F) (m : Assoc F) (totals : Assoc ℕ)
      → Separate m
      → sum_bals (split_reward float fee_address full reward total m totals).bals % 2 ^ 64
        ≡ to_ℕ full
  unfolding split_reward add_to
  split_reward-sum fee_address full reward total m totals d =
      let start : Split float = record { bals = []; totals = totals; rewarded = 0 } in
      let s = split_loop float reward total m start in
      let rest = (to_ℕ full + 2 ^ 64 - s.rewarded) % 2 ^ 64 in
      let spread : sum_bals s.bals % 2 ^ 64 ≡ s.rewarded =
        split_loop-sum reward total m start d (Apart-nil m) (unfold sum_bals in refl) in
      omega (
        arith,
        spread,
        float.to_ℕ_lt full,
        sum_bals-insert fee_address ((lookup_or 0 fee_address s.bals + rest) % 2 ^ 64) s.bals,
      )

  add_share-Separate :
      (sh : Share) (w : Work float) → Separate w.miners → Separate (add_share float sh w).miners
  unfolding add_share
  add_share-Separate sh w h = insert-Separate sh.wallet _ w.miners h

  reward_is_shared_out :
      (cfg : Setting float) (t : Transfer) (hash : Bytes) (kept : List (Bytes × Bytes))
      (w : Work float) (p : Progress float)
      → Separate w.miners
      → (tx : UnconfTx) × ((add_reward float cfg t hash kept w p).txs ≡ p.txs ++ (tx ∷ []))
        × (get_total_money tx ≡ to_ℕ (float.of_ℕ t.reward))
  unfolding add_reward
  reward_is_shared_out cfg t hash kept w p d =
      let full = float.of_ℕ t.reward in
      let s =
        split_reward float cfg.fee_address full (after_fee float cfg full) w.total w.miners
          p.totals in
      (
        record {
          unlock_height = (t.topoheight + cfg.min_confs) % 2 ^ 64;
          txn_block_hash = hash;
          bals = s.bals;
        },
        refl,
        unfold get_total_money in
            omega (
              arith,
              total_from-sum_bals 0 s.bals (omega arith),
              split_reward-sum cfg.fee_address full (after_fee float cfg full) w.total w.miners
                  p.totals d,
            ),
      )

  abbrev no_work : Work float
  no_work = record { total = float.of_ℕ 0; miners = [] }

  carry : (u u' : Work float) → u ≡ u' → Separate u.miners → Separate u'.miners
  carry u u' e h = subst (λ (z : Work float). Separate z.miners) e h

  count_shares-Separate :
      (window now : ℕ) (l : List (Bytes × Bytes)) (w : Work float) {kept : List (Bytes × Bytes)}
      {w' : Work float}
      → Separate w.miners
      → count_shares float window now l w ≡ some (kept, w')
      → Separate w'.miners
  unfolding count_shares
  count_shares-Separate window now [] w {kept} {w'} h e = carry w w' (ground arith) h
  count_shares-Separate window now ((key, v) ∷ l) w {kept} {w'} h e =
      elim (Option-cases (deserialize_share v)) [
        | inl f ↦ ground (arith, f)
        | inr ((sh, some x), f) ↦ elim (Option-cases (count_shares float window now l w)) [
          | inl g ↦ ground (arith, f, g)
          | inr ((kept', u), g) ↦
              carry u w' (ground (arith, f, g)) (count_shares-Separate window now l w h g)
        ]
        | inr ((sh, none), f) ↦ elim (Bool-cases (ltb ((sh.time + window) % 2 ^ 64) now)) [
          | inl old ↦
              count_shares-Separate window now l w {kept = kept} {w' = w'} h
                (ground (arith, f, old))
          | inr young ↦
              elim (Option-cases (count_shares float window now l (add_share float sh w))) [
                | inl g ↦ ground (arith, f, young, g)
                | inr ((kept', u), g) ↦ carry u w' (ground (arith, f, young, g)) (
                    count_shares-Separate window now l (add_share float sh w)
                      (add_share-Separate sh w h) g)
              ]
        ]
      ]

  -- A transfer that is added went through the shares and has a hash.
  pub add_transfer-add_reward :
      (cfg : Setting float) (t : Transfer) (p p' : Progress float)
      → add_transfer float cfg t p ≡ some p'
      → (hash : Bytes) × (kept : List (Bytes × Bytes)) × (w : Work float) × (count_shares float
            cfg.window cfg.now p.shares no_work
          ≡ some (kept, w))
        × (p' ≡ add_reward float cfg t hash kept w p)
  unfolding add_transfer
  add_transfer-add_reward cfg t p p' e =
      elim (Option-cases (count_shares float cfg.window cfg.now p.shares no_work)) [
        | inl g ↦ absurd (ground (arith, g))
        | inr ((kept, w), g) ↦ elim (Option-cases (decode_hex t.hash)) [
          | inl h ↦ absurd (ground (arith, g, h))
          | inr (hash, h) ↦ (hash, kept, w, g, ground (arith, g, h))
        ]
      ]

  -- Whenever a transfer is added, one pending transaction joins the list, and its balances have the
  -- sum `uint64(float64(reward))`, in uint64: the miners and the fee address together get the
  -- reward and no more, whatever the floating-point operations give.
  pub add_transfer-shares_out :
      (cfg : Setting float) (t : Transfer) (p p' : Progress float)
      → add_transfer float cfg t p ≡ some p'
      → (tx : UnconfTx) × (p'.txs ≡ p.txs ++ (tx ∷ []))
        × (get_total_money tx ≡ to_ℕ (float.of_ℕ t.reward))
  add_transfer-shares_out cfg t p p' e =
      let (hash, kept, w, g, same) = add_transfer-add_reward cfg t p p' e in
      rw same (
        reward_is_shared_out cfg t hash kept w p
          (count_shares-Separate cfg.window cfg.now p.shares no_work tt g))
