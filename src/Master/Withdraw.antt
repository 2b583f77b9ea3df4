-- ===== src/Master/Withdraw.antt =====
-- `Withdraw` of cmd/master/withdraw.go: the payout of the balances above the threshold. The
-- configured amounts are given as the uint64 values of `MinWithdrawal * coin` and
-- `WithdrawalFee * coin`.
pub mod Owed
pub mod Conservation
pub mod Outcome
pub mod Listed
use xelis_pool.Common.{
  ℕ, ◌+◌, ◌-◌, ◌%◌, ◌^◌, Bool, true, false, ◌||◌, Option, none, some, List, [], ◌∷◌, ◌++◌, length,
  ltb, leb, if◌then◌else◌,
}
use xelis_pool.Common.Bytes.{Bytes, ◌=?◌}
use xelis_pool.Serializer.Reader.{Error}
use xelis_pool.Database.Records.{AddrInfo, no_info}
use xelis_pool.Database.Encode.{serialize_addr_info}
use xelis_pool.Database.Decode.{deserialize_addr_info}
use xelis_pool.Master.Stats.{Withdrawal}
use xelis_pool.Master.Store.{Store}

pub record Config : Type 0 where
  pub pool_address : Bytes
  pub fee_address : Bytes
  pub banned : List Bytes
  pub min_withdrawal : ℕ
  pub withdrawal_fee : ℕ

-- wallet.TransferOut; the asset is constant.
pub record TransferOut : Type 0 where
  pub amount : ℕ
  pub destination : Bytes

abbrev pub max_withdraw_destinations : ℕ
max_withdraw_destinations = 25

-- The loop over the banned addresses: once replaced, the fee address is compared with the rest.
unfoldable pub replace_banned : Bytes → List Bytes → Bytes → Bytes
replace_banned fee [] a = a
replace_banned fee (x ∷ xs) a = replace_banned fee xs (if a =? x then fee else a)

-- Where the balance of a key is sent.
unfoldable pub payee : Config → Bytes → Bytes
unfolding replace_banned
payee c key =
    replace_banned c.fee_address c.banned (if key =? c.pool_address then c.fee_address else key)

unfoldable pub has_destination : Bytes → List TransferOut → Bool
has_destination a [] = false
has_destination a (t ∷ ts) = t.destination =? a || has_destination a ts

-- `addrInfo.Paid += addrInfo.Balance; addrInfo.Balance = 0`, in uint64.
abbrev pub emptied : AddrInfo → AddrInfo
emptied info = record info { balance = 0; paid = (info.paid + info.balance) % 2 ^ 64 }

-- `addrInfo.Balance - fee`, in uint64.
abbrev pub transfer_of : Config → Bytes → AddrInfo → TransferOut
transfer_of c address info = record {
  amount = (info.balance + 2 ^ 64 - c.withdrawal_fee) % 2 ^ 64;
  destination = address;
}

module _ (store : Store) (c : Config) where
  open store use {B, get, put, walk}

  -- The variables of the loop.
  pub record Payout : Type 0 where
    pub bucket : B
    pub destinations : List TransferOut
    pub fee_revenue : ℕ
    pub unpaid : Bool

  -- One address is paid: a transfer, and a record with no balance left.
  unfoldable pub pay : Bytes → Bytes → AddrInfo → Payout → Option Payout
  pay key address info s = elim (put key (serialize_addr_info (emptied info)) s.bucket) [
    | none ↦ none
    | some b ↦ some (record s {
      bucket = b;
      destinations = s.destinations ++ (transfer_of c address info ∷ []);
      fee_revenue = (s.fee_revenue + c.withdrawal_fee) % 2 ^ 64;
    })
  ]

  unfoldable pub visit : Bytes → AddrInfo → Payout → Option Payout
  unfolding pay
  visit key info s =
      if ltb c.min_withdrawal info.balance
      then (if has_destination (payee c key) s.destinations
          then some s
          else pay key (payee c key) info s)
      else some s

  -- What a record deserializes to: an error ends the update.
  unfoldable pub visit_bytes : Bytes → Option (AddrInfo × Option Error) → Payout → Option Payout
  unfolding visit
  visit_bytes key none s = none
  visit_bytes key (some (info, some e)) s = none
  visit_bytes key (some (info, none)) s = visit key info s

  -- `none` is an error, for which the update is rolled back.
  unfoldable pub pay_loop : List (Bytes × Bytes) → Payout → Option Payout
  unfolding visit_bytes
  pay_loop [] s = some s
  pay_loop ((key, val) ∷ rest) s =
      if leb max_withdraw_destinations (length s.destinations)
      then some (record s { unpaid = true })
      else elim (visit_bytes key (deserialize_addr_info val) s) [
        | none ↦ none
        | some s' ↦ pay_loop rest s'
      ]

  -- The wallet that builds and broadcasts: the hash and the fee of the transaction, or an error.
  -- The log of withdrawals is kept in memory and is not rolled back.
  pub record Result : Type 0 where
    pub still_unpaid : Bool
    pub final : B
    pub sent : List TransferOut

  -- The reading of the fee address's record behind the broadcast: whether it succeeds. The
  -- credited record is not written.
  unfoldable pub fee_record_ok : B → Bool
  fee_record_ok b = elim (get c.fee_address b) [
    | none ↦ true
    | some v ↦ elim (deserialize_addr_info v) [
      | none ↦ false
      | some (info, e) ↦ elim e [ none ↦ true | some x ↦ false ]
    ]
  ]

  module _ (build_transaction : List TransferOut → Bool) where
    -- With no destination nothing is sent; a failed build rolls back.
    unfoldable pub settle : B → Option Payout → Result
    unfolding fee_record_ok
    settle b none = record { still_unpaid = false; final = b; sent = [] }
    settle b (some s) =
        if ltb (length s.destinations) 1
        then record { still_unpaid = s.unpaid; final = s.bucket; sent = [] }
        else if build_transaction s.destinations
        then (if fee_record_ok s.bucket
            then record { still_unpaid = s.unpaid; final = s.bucket; sent = s.destinations }
            else record { still_unpaid = false; final = b; sent = s.destinations })
        else record { still_unpaid = false; final = b; sent = [] }

    unfoldable pub withdraw : B → Result
    unfolding settle pay_loop
    withdraw b = settle b (
        pay_loop (walk b)
          (record { bucket = b; destinations = []; fee_revenue = 0; unpaid = false }))

-- The entry that a broadcast transaction puts in front of `Stats.RecentWithdrawals`; the list is in
-- memory, and is not rolled back.
abbrev pub destination_of : TransferOut → Bytes × ℕ
destination_of t = (t.destination, t.amount)

unfoldable pub destinations_of : List TransferOut → List (Bytes × ℕ)
destinations_of [] = []
destinations_of (t ∷ ts) = destination_of t ∷ destinations_of ts

unfoldable pub note_withdrawal :
    Option Bytes → ℕ → List TransferOut → List Withdrawal → List Withdrawal
unfolding destinations_of
note_withdrawal txid time [] recent = recent
note_withdrawal none time (t ∷ ts) recent = recent
note_withdrawal (some txid) time (t ∷ ts) recent =
    record { txid = txid; timestamp = time; destinations = destinations_of (t ∷ ts) } ∷ recent

-- `Withdraw` with the recent withdrawals: the wallet answers the hash of a transaction, or `none`.
module _ (store : Store) (c : Config) (wallet : List TransferOut → Option Bytes) (time : ℕ) where
  open store use {B}

  unfoldable pub is_built : List TransferOut → Bool
  is_built ts = elim (wallet ts) [ none ↦ false | some txid ↦ true ]

  unfoldable pub withdraw_listed : B → List Withdrawal → Result store c × List Withdrawal
  unfolding withdraw is_built note_withdrawal
  withdraw_listed b recent =
      let r = withdraw store c is_built b in (r, note_withdrawal (wallet r.sent) time r.sent recent)
