-- ===== src/Master/Withdraw/Conservation.antt =====
-- A payout moves balances into transfers and fees, and loses nothing.
use xelis_pool.Common.{
  ℕ, ◌+◌, ◌%◌, ◌^◌, ◌<◌, ◌≡◌, ◌∙◌, refl, sym, ap, true, false, Option, none, some, List, [], ◌∷◌,
  ◌++◌, ◌⊎◌, Bool-cases, Option-cases, inl, inr, length, leb, arith,
}
use xelis_pool.Common.Bytes.{Bytes, ◌=?◌}
use xelis_pool.Common.Assoc.{absent}
use xelis_pool.Serializer.Reader.{Error}
use xelis_pool.Database.Records.{AddrInfo}
use xelis_pool.Database.Encode.{serialize_addr_info}
use xelis_pool.Database.Decode.{deserialize_addr_info}
use xelis_pool.Database.RoundTrip.{IsInfo}
use xelis_pool.Database.Faults.{deserialize_addr_info-IsInfo}
use xelis_pool.Master.Store.{Store, balance_at}
use xelis_pool.Master.Withdraw.{
  Config, emptied, transfer_of, Payout, payee, pay, visit, visit_bytes, pay_loop,
}
use xelis_pool.Master.Withdraw.Owed.{
  total_amount, total_amount-append, balance_at-put, balance_at-get, owed, IsWalk, IsWalk-frame,
  owed-frame, balance_at-eq,
}

module _ (store : Store) (c : Config) where
  open store use {B, get, put, walk, get_put}

  -- What has left the balances: the transfers and the fees.
  abbrev pub paid_out : Payout store c → ℕ
  paid_out s = total_amount s.destinations + s.fee_revenue

  module _ (key : Bytes) (info : AddrInfo) (s s' : Payout store c) where
    -- What a successful payment leaves.
    pub pay_lem :
        (address : Bytes)
        → pay store c key address info s ≡ some s'
        → (put key (serialize_addr_info (emptied info)) s.bucket ≡ some s'.bucket)
          × (s'.destinations ≡ s.destinations ++ (transfer_of c address info ∷ []))
          × (s'.fee_revenue ≡ (s.fee_revenue + c.withdrawal_fee) % 2 ^ 64)
    unfolding pay
    pay_lem address e = ground arith

    pay_conserves :
        (address : Bytes)
        → c.withdrawal_fee < 2 ^ 64
        → IsInfo info
        → balance_at store key s.bucket ≡ info.balance
        → pay store c key address info s ≡ some s'
        → (balance_at store key s'.bucket + paid_out s') % 2 ^ 64
          ≡ (balance_at store key s.bucket + paid_out s) % 2 ^ 64
    pay_conserves address small h bal e =
        let (put_ok, sent, fees) = pay_lem address e in
        let left : balance_at store key s'.bucket ≡ 0 =
          balance_at-put store c key (emptied info) s.bucket s'.bucket
            (omega arith, h.1, omega arith) put_ok in
        let totals : total_amount s'.destinations
            ≡ total_amount s.destinations + (transfer_of c address info).amount =
          ap total_amount sent ∙ total_amount-append s.destinations (transfer_of c address info) in
        omega (arith, h.0)

    visit_conserves :
        c.withdrawal_fee < 2 ^ 64
        → IsInfo info
        → balance_at store key s.bucket ≡ info.balance
        → visit store c key info s ≡ some s'
        → (balance_at store key s'.bucket + paid_out s') % 2 ^ 64
          ≡ (balance_at store key s.bucket + paid_out s) % 2 ^ 64
    unfolding visit
    visit_conserves small h bal e =
        ground (arith, pay_conserves (payee c key) small h bal, unchanged)
      where
        unchanged :
            s ≡ s'
            → (balance_at store key s'.bucket + paid_out s') % 2 ^ 64
              ≡ (balance_at store key s.bucket + paid_out s) % 2 ^ 64
        unchanged p = ap (λ t. (balance_at store key t.bucket + paid_out t) % 2 ^ 64) (sym p)

    visit_frame :
        (j : Bytes)
        → (key =? j) ≡ false
        → visit store c key info s ≡ some s'
        → get j s'.bucket ≡ get j s.bucket
    unfolding visit pay
    visit_frame j ne e =
        ground (arith, get_put key j (serialize_addr_info (emptied info)) s.bucket s'.bucket)

  module _ (key : Bytes) (s s' : Payout store c) where
    step_frame :
        (j : Bytes) (r : Option (AddrInfo × Option Error))
        → (key =? j) ≡ false
        → visit_bytes store c key r s ≡ some s'
        → get j s'.bucket ≡ get j s.bucket
    unfolding visit_bytes
    step_frame j none ne e = cc
    step_frame j (some (info, some x)) ne e = cc
    step_frame j (some (info, none)) ne e = visit_frame key info s s' j ne e

    step_conserves :
        (val : Bytes) (r : Option (AddrInfo × Option Error))
        → c.withdrawal_fee < 2 ^ 64
        → get key s.bucket ≡ some val
        → deserialize_addr_info val ≡ r
        → visit_bytes store c key r s ≡ some s'
        → (balance_at store key s'.bucket + paid_out s') % 2 ^ 64
          ≡ (balance_at store key s.bucket + paid_out s) % 2 ^ 64
    unfolding visit_bytes
    step_conserves val none small g d e = cc
    step_conserves val (some (info, some x)) small g d e = cc
    step_conserves val (some (info, none)) small g d e =
        visit_conserves key info s s' small (deserialize_addr_info-IsInfo val d)
          (balance_at-get store c key val s.bucket g d) e

  -- One round of the loop: it stops, or it visits the address and goes on.
  pub round :
      (key val : Bytes) (l : List (Bytes × Bytes)) (s s' : Payout store c)
      → pay_loop store c ((key, val) ∷ l) s ≡ some s'
      → (s' ≡ record s { unpaid = true })
        ⊎ ((s1 : Payout store c) × (visit_bytes store c key (deserialize_addr_info val) s ≡ some s1)
            × (pay_loop store c l s1 ≡ some s'))
  unfolding pay_loop
  round key val l s s' e =
      elim (Option-cases (visit_bytes store c key (deserialize_addr_info val) s)) [
        | inl f ↦ inl (ground (arith, f))
        | inr (s1, f) ↦ elim (Bool-cases (leb 25 (length s.destinations))) [
          | inl full ↦ inl (ground arith)
          | inr room ↦ inr (s1, f, ground arith)
        ]
      ]

  loop_frame :
      (j : Bytes) (l : List (Bytes × Bytes)) (s s' : Payout store c)
      → absent j l ≡ true
      → pay_loop store c l s ≡ some s'
      → get j s'.bucket ≡ get j s.bucket
  unfolding absent
  loop_frame j [] s s' h e = unfold pay_loop in ground arith
  loop_frame j ((key, val) ∷ l) s s' h e = elim (round key val l s s' e) [
    | inl p ↦ ap (λ t. get j t.bucket) p
    | inr (s1, f, g) ↦
        loop_frame j l s1 s' (ground arith) g
        ∙ step_frame key s s1 j (deserialize_addr_info val) (ground arith) f
  ]

  loop_conserves :
      (l : List (Bytes × Bytes)) (s s' : Payout store c)
      → c.withdrawal_fee < 2 ^ 64
      → IsWalk store c l s.bucket
      → pay_loop store c l s ≡ some s'
      → (owed store c l s'.bucket + paid_out s') % 2 ^ 64
        ≡ (owed store c l s.bucket + paid_out s) % 2 ^ 64
  unfolding owed
  loop_conserves [] s s' small w e =
      let same : s' ≡ s = unfold pay_loop in ground arith in
      ap (λ t. (0 + paid_out t) % 2 ^ 64) same
  loop_conserves ((key, val) ∷ l) s s' small (g, a, w) e = elim (round key val l s s' e) [
    | inl p ↦ ap (λ t. (owed store c ((key, val) ∷ l) t.bucket + paid_out t) % 2 ^ 64) p
    | inr (s1, f, rest) ↦
        let r = deserialize_addr_info val in
        let frame = λ (j : Bytes) (ne : (key =? j) ≡ false). step_frame key s s1 j r ne f in
        omega (
          arith,
          step_conserves key s s1 val r small g refl f,
          loop_conserves l s1 s' small (IsWalk-frame store c key s.bucket s1.bucket frame l a w)
              rest,
          owed-frame store c key s.bucket s1.bucket frame l a,
          balance_at-eq store c key s1.bucket s'.bucket (loop_frame key l s1 s' a rest),
        )
  ]

  -- A successful payout loop from empty totals: the balances that are left, the transfers and the
  -- fees add up to the balances before, in uint64. The fee is a uint64, and the walk shows each key
  -- once with its stored value.
  pub pay_loop_conserves :
      (b : B) (s' : Payout store c)
      → c.withdrawal_fee < 2 ^ 64
      → IsWalk store c (walk b) b
      → pay_loop store c
          (walk b)
          (record { bucket = b; destinations = []; fee_revenue = 0; unpaid = false })
        ≡ some s'
      → (owed store c (walk b) s'.bucket + total_amount s'.destinations + s'.fee_revenue) % 2 ^ 64
        ≡ owed store c (walk b) b % 2 ^ 64
  unfolding total_amount
  pay_loop_conserves b s' small w e = omega (
    arith,
    loop_conserves (walk b)
        (record { bucket = b; destinations = []; fee_revenue = 0; unpaid = false }) s' small w e,
  )
