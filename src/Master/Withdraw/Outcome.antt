-- ===== src/Master/Withdraw/Outcome.antt =====
-- What a whole run of `Withdraw` leaves.
use xelis_pool.Common.{
  ◌+◌, ◌*◌, ◌%◌, false, ◌^◌, ◌<◌, ◌≡◌, ◌⊎◌, refl, Bool, none, some, List, [], ◌∷◌, length,
  Bool-cases, ltb, true, inl, inr, arith, Option, length-append, ap, ◌∙◌, sym,
}
use xelis_pool.Serializer.Reader.{Error}
use xelis_pool.Database.Records.{AddrInfo}
use xelis_pool.Database.Decode.{deserialize_addr_info}
use xelis_pool.Master.Withdraw.{
  fee_record_ok, transfer_of, payee, visit, visit_bytes, pay, Config, TransferOut, Payout, pay_loop,
  settle, Result,
}
use mathlib.Core.Path.{subst}
use xelis_pool.Common.Bytes.{Bytes}
use xelis_pool.Master.Store.{Store}
use xelis_pool.Master.Withdraw.Owed.{owed, total_amount, IsWalk}
use xelis_pool.Master.Withdraw.Conservation.{pay_loop_conserves, pay_lem, round}

no_transfers : (ts : List TransferOut) → length ts < 1 → ts ≡ []
no_transfers [] h = refl
no_transfers (t ∷ ts) h = absurd (omega arith)

module _ (store : Store) (c : Config) where
  -- The fees collected are those of the transfers, in uint64.
  abbrev HasFees : Payout store c → Type 0
  HasFees s = s.fee_revenue ≡ (c.withdrawal_fee * length s.destinations) % 2 ^ 64

  pay-HasFees :
      (key address : Bytes) (info : AddrInfo) (s s' : Payout store c)
      → pay store c key address info s ≡ some s'
      → HasFees s
      → HasFees s'
  pay-HasFees key address info s s' e h =
      let (put_ok, sent, fees) = pay_lem store c key info s s' address e in
      let n = length s.destinations in
      let size : length s'.destinations ≡ n + 1 =
        ap length sent ∙ length-append s.destinations (transfer_of c address info ∷ []) in
      let product : c.withdrawal_fee * (n + 1) ≡ c.withdrawal_fee * n + c.withdrawal_fee =
        grind arith in
      let whole : c.withdrawal_fee * length s'.destinations
          ≡ c.withdrawal_fee * n + c.withdrawal_fee =
        ap (λ k. c.withdrawal_fee * k) size ∙ product in
      omega (arith, fees, h, whole)

  step_fees :
      (key : Bytes) (r : Option (AddrInfo × Option Error)) (s s' : Payout store c)
      → visit_bytes store c key r s ≡ some s'
      → HasFees s
      → HasFees s'
  unfolding visit_bytes visit
  step_fees key none s s' e h = absurd (ground (arith, e))
  step_fees key (some (info, some x)) s s' e h = absurd (ground (arith, e))
  step_fees key (some (info, none)) s s' e h = ground (
    arith,
    e,
    pay-HasFees key (payee c key) info s s',
    λ (p : s ≡ s'). subst (λ (t : Payout store c). HasFees t) p h,
  )

  loop-HasFees :
      (l : List (Bytes × Bytes)) (s s' : Payout store c)
      → pay_loop store c l s ≡ some s'
      → HasFees s
      → HasFees s'
  loop-HasFees [] s s' e h =
      let same : s ≡ s' = unfold pay_loop in ground (arith, e) in
      subst (λ (t : Payout store c). HasFees t) same h
  loop-HasFees ((key, val) ∷ l) s s' e h = elim (round store c key val l s s' e) [
    | inl p ↦ subst (λ (t : Payout store c). HasFees t) (sym p) h
    | inr (s1, f, g) ↦ loop-HasFees l s1 s' g (step_fees key (deserialize_addr_info val) s s1 f h)
  ]

module _ (store : Store) (c : Config) where
  open store use {B, walk}

  abbrev pub no_payout : B → Payout store c
  no_payout b = record { bucket = b; destinations = []; fee_revenue = 0; unpaid = false }

  -- The balances that a payout leaves, its transfers and one fee for each of them add up to the
  -- balances before, in uint64.
  pub payout_conserves :
      (b : B) (s : Payout store c)
      → c.withdrawal_fee < 2 ^ 64
      → IsWalk store c (walk b) b
      → pay_loop store c (walk b) (no_payout b) ≡ some s
      → (owed store c (walk b) s.bucket
            + total_amount s.destinations
            + c.withdrawal_fee * length s.destinations)
          % 2 ^ 64
        ≡ owed store c (walk b) b % 2 ^ 64
  payout_conserves b s small w f =
      let total = pay_loop_conserves store c b s small w f in
      let none_sent : c.withdrawal_fee * 0 ≡ 0 = omega arith in
      let fees = loop-HasFees store c (walk b) (no_payout b) s f (omega (arith, none_sent)) in
      omega (arith, total, fees)

module _ (store : Store) (c : Config) (build_transaction : List TransferOut → Bool) where
  open store use {B}

  abbrev settled : B → Option (Payout store c) → Result store c
  settled = settle store c build_transaction

  -- A run sends nothing and leaves the bucket, or keeps a payout with its transfers sent, or rolls
  -- back a payout that was sent, because the record of the fee address cannot be read.
  pub settle_lem :
      (b : B) (p : Option (Payout store c))
      → (((settled b p).final ≡ b) × ((settled b p).sent ≡ []))
        ⊎ (((s : Payout store c) × (p ≡ some s)
              × ((s.destinations ≡ []) ⊎ (build_transaction s.destinations ≡ true))
              × ((settled b p).final ≡ s.bucket)
              × ((settled b p).sent ≡ s.destinations))
            ⊎ ((s : Payout store c) × (p ≡ some s)
                × (build_transaction s.destinations ≡ true)
                × (ltb (length s.destinations) 1 ≡ false)
                × (fee_record_ok store c s.bucket ≡ false)
                × ((settled b p).final ≡ b)
                × ((settled b p).sent ≡ s.destinations)))
  unfolding settle
  settle_lem b none = inl (refl, refl)
  settle_lem b (some s) = elim (Bool-cases (ltb (length s.destinations) 1)) [
    | inl few ↦
        let nothing : s.destinations ≡ [] = no_transfers s.destinations (ground (arith, few)) in
        inr (inl (s, refl, inl nothing, ground (arith, few), ground (arith, few, nothing)))
    | inr many ↦ elim (Bool-cases (build_transaction s.destinations)) [
      | inr failed ↦ inl (ground (arith, many, failed), ground (arith, many, failed))
      | inl built ↦ elim (Bool-cases (fee_record_ok store c s.bucket)) [
        | inl ok ↦ inr (
            inl (
              s,
              refl,
              inr built,
              ground (arith, many, built, ok),
              ground (arith, many, built, ok),
            ))
        | inr bad ↦ inr (
            inr (
              s,
              refl,
              built,
              many,
              bad,
              ground (arith, many, built, bad),
              ground (arith, many, built, bad),
            ))
      ]
    ]
  ]
