-- ===== src/Master/Withdraw/Listed.antt =====
-- `Withdraw` of cmd/master/withdraw.go against `Stats.RecentWithdrawals`, the list of withdrawals
-- that it keeps in memory.
use xelis_pool.Common.{
  ℕ, suc, ◌+◌, ◌*◌, ◌%◌, ◌^◌, ◌<◌, ◌≡◌, ◌⊎◌, refl, ap, true, false, Option, none, some, List, [],
  ◌∷◌, length, Option-cases, ltb, inl, inr, arith,
}
use xelis_pool.Common.Bytes.{Bytes}
use xelis_pool.Master.Store.{Store}
use xelis_pool.Master.Stats.{Withdrawal}
use xelis_pool.Master.Api.{total_sent}
use xelis_pool.Master.Withdraw.{
  Config, TransferOut, Payout, destinations_of, note_withdrawal, is_built, fee_record_ok, pay_loop,
  withdraw, withdraw_listed,
}
use xelis_pool.Master.Withdraw.Owed.{owed, total_amount, IsWalk}
use xelis_pool.Master.Withdraw.Outcome.{no_payout, payout_conserves, settle_lem}

-- The amounts of the listed withdrawals, with a fee for each destination.
abbrev pub listed : ℕ → List Withdrawal → ℕ
listed fee [] = 0
listed fee (w ∷ ws) = total_sent w.destinations 0 + fee * length w.destinations + listed fee ws

total_sent-destinations_of :
    (ts : List TransferOut) (x : ℕ)
    → x < 2 ^ 64
    → total_sent (destinations_of ts) x ≡ (x + total_amount ts) % 2 ^ 64
unfolding total_sent destinations_of total_amount
total_sent-destinations_of [] x h = omega arith
total_sent-destinations_of (t ∷ ts) x h =
    omega (arith, total_sent-destinations_of ts ((x + t.amount) % 2 ^ 64) (omega arith))

length-destinations_of : (ts : List TransferOut) → length (destinations_of ts) ≡ length ts
unfolding destinations_of
length-destinations_of [] = refl
length-destinations_of (t ∷ ts) = ap suc (length-destinations_of ts)

built_txid :
    (store : Store) (c : Config) (wallet : List TransferOut → Option Bytes) (time : ℕ)
    (ts : List TransferOut)
    → is_built store c wallet time ts ≡ true
    → (txid : Bytes) × (wallet ts ≡ some txid)
unfolding is_built
built_txid store c wallet time ts h = elim (Option-cases (wallet ts)) [
  | inl failed ↦ absurd (ground (arith, failed))
  | inr found ↦ found
]

module _ (c : Config) (time : ℕ) where
  abbrev pub entry : Bytes → List TransferOut → Withdrawal
  entry txid ts = record { txid = txid; timestamp = time; destinations = destinations_of ts }

  note_withdrawal-entry :
      (ts : List TransferOut) (txid : Bytes) (recent : List Withdrawal)
      → ltb (length ts) 1 ≡ false
      → note_withdrawal (some txid) time ts recent ≡ entry txid ts ∷ recent
  unfolding note_withdrawal
  note_withdrawal-entry [] txid recent h = absurd (ground arith)
  note_withdrawal-entry (t ∷ ts) txid recent h = refl

  -- What a noted list comes to, where what is sent was built.
  note_withdrawal-listed :
      (ts : List TransferOut) (txid : Option Bytes) (recent : List Withdrawal)
      → (ts ≡ []) ⊎ ((x : Bytes) × (txid ≡ some x))
      → listed c.withdrawal_fee (note_withdrawal txid time ts recent) % 2 ^ 64
        ≡ (total_amount ts + c.withdrawal_fee * length ts + listed c.withdrawal_fee recent) % 2 ^ 64
  unfolding note_withdrawal
  note_withdrawal-listed [] txid recent h =
      let free : c.withdrawal_fee * 0 ≡ 0 = omega arith in
      unfold total_amount in omega (arith, free)
  note_withdrawal-listed (t ∷ ts) none recent h = absurd (elim h [ inl e ↦ cc | inr (x, e) ↦ cc ])
  note_withdrawal-listed (t ∷ ts) (some txid) recent h =
      rw (length-destinations_of (t ∷ ts))
        (omega (arith, total_sent-destinations_of (t ∷ ts) 0 (omega arith)))

module _ (store : Store) (c : Config) (wallet : List TransferOut → Option Bytes) (time : ℕ) where
  open store use {B, walk}

  -- A payout was broadcast and listed, and the record of the fee address behind it cannot be read:
  -- the balances are as before.
  abbrev pub IsRolledBack : B → List Withdrawal → B → List Withdrawal → Type 0
  IsRolledBack b recent final recent' =
      ((s : Payout store c) × (txid : Bytes) × (pay_loop store c (walk b) (no_payout store c b)
          ≡ some s)
        × (wallet s.destinations ≡ some txid)
        × (fee_record_ok store c s.bucket ≡ false)
        × (final ≡ b)
        × (recent' ≡ entry c time txid s.destinations ∷ recent))

  built_once :
      (ts : List TransferOut)
      → (ts ≡ []) ⊎ (is_built store c wallet time ts ≡ true)
      → (ts ≡ []) ⊎ ((txid : Bytes) × (wallet ts ≡ some txid))
  built_once ts (inl nothing) = inl nothing
  built_once ts (inr built) = inr (built_txid store c wallet time ts built)

  -- A run of `Withdraw` keeps, in uint64, the sum of the balances and of the amounts of the recent
  -- withdrawals, each transfer with a fee; or the payout was broadcast and listed, and is rolled
  -- back because the record of the fee address that it left cannot be read. The fee is a uint64,
  -- and the walk shows each key once with its stored value.
  pub withdraw_listed_conserves :
      (b : B) (recent : List Withdrawal)
      → c.withdrawal_fee < 2 ^ 64
      → IsWalk store c (walk b) b
      → let (r, recent') = withdraw_listed store c wallet time b recent in
        ((owed store c (walk b) r.final + listed c.withdrawal_fee recent') % 2 ^ 64
          ≡ (owed store c (walk b) b + listed c.withdrawal_fee recent) % 2 ^ 64)
        ⊎ IsRolledBack b recent r.final recent'
  unfolding withdraw_listed withdraw
  withdraw_listed_conserves b recent small w =
      let p = pay_loop store c (walk b) (no_payout store c b) in
      elim (settle_lem store c (is_built store c wallet time) b p) [
        | inl (back, nothing) ↦
            let same = note_withdrawal-listed c time [] (wallet []) recent (inl refl) in
            let free : c.withdrawal_fee * 0 ≡ 0 = omega arith in
            inl (rw back (rw nothing (unfold total_amount in omega (arith, same, free))))
        | inr (inl (s, done, why, kept, sent)) ↦
            let money = payout_conserves store c b s small w done in
            let ts = s.destinations in
            let shows = note_withdrawal-listed c time ts (wallet ts) recent (built_once ts why) in
            inl (rw kept (rw sent (omega (arith, money, shows))))
        | inr (inr (s, done, built, many, bad, back, sent)) ↦
            let (txid, e) = built_txid store c wallet time s.destinations built in
            inr (
              s,
              txid,
              done,
              e,
              bad,
              back,
              rw sent (rw e (note_withdrawal-entry c time s.destinations txid recent many)),
            )
      ]
