-- ===== src/Master/Api.antt =====
-- cmd/master/api.go: what the web server of the master computes and changes.
pub mod Sums
pub mod Pages
use xelis_pool.Common.{
  ℕ, ◌+◌, ◌*◌, ◌/◌, ◌-◌, ◌%◌, ◌^◌, Bool, true, false, ◌&&◌, ◌||◌, not, Option, none, some, List, [],
  ◌∷◌, ◌++◌, length, ltb, ◌==◌, if◌then◌else◌,
}
use xelis_pool.Common.Bytes.{Bytes, ◌=?◌}
use xelis_pool.Common.Text.{split}
use xelis_pool.Serializer.Reader.{Error}
use xelis_pool.Database.Records.{AddrInfo, no_info}
use xelis_pool.Database.Encode.{serialize_addr_info}
use xelis_pool.Database.Decode.{deserialize_addr_info}
use xelis_pool.Master.Float.{Float}
use xelis_pool.Master.Store.{Store}
use xelis_pool.Master.Stats.{Withdrawal}

-- The loop over the address records: the sums of the balances and of the pending balances, in
-- uint64, and whether every record could be read. It ends at the first that cannot, with the sums
-- so far; the outer `none` is a panic.
unfoldable pub sums : List (Bytes × Bytes) → ℕ → ℕ → Option ((ℕ × ℕ) × Bool)
sums [] confirmed pending = some ((confirmed, pending), true)
sums ((k, v) ∷ rest) confirmed pending = elim (deserialize_addr_info v) [
  | none ↦ none
  | some (info, e) ↦
      let more =
        sums rest ((confirmed + info.balance) % 2 ^ 64)
          ((pending + info.balance_pending) % 2 ^ 64) in
      elim e [ none ↦ more | some err ↦ some ((confirmed, pending), false) ]
]

-- The amounts of the transfers of a withdrawal, in uint64.
unfoldable pub total_sent : List (Bytes × ℕ) → ℕ → ℕ
total_sent [] x = x
total_sent ((to, amount) ∷ ts) x = total_sent ts ((x + amount) % 2 ^ 64)

module _ (float : Float) where
  open float use {F, of_ℕ, mul, div}

  -- `PubWithdraw`: the txid, the time, the amount in coins, and the number of destinations.
  pub record PubWithdraw : Type 0 where
    pub txid : Bytes
    pub timestamp : ℕ
    pub amount : F
    pub destinations : ℕ

  pub record UserWithdrawal : Type 0 where
    pub amount : F
    pub txid : Bytes
    pub time : ℕ

  -- One coin in atomic units.
  module _ (coin : F) where
    unfoldable pub transfers_to : Bytes → Withdrawal → List (Bytes × ℕ) → List UserWithdrawal
    transfers_to addr w [] = []
    transfers_to addr w ((to, amount) ∷ ts) =
        let rest = transfers_to addr w ts in
        if to =? addr
        then record { amount = div (of_ℕ amount) coin; txid = w.txid; time = w.timestamp } ∷ rest
        else rest

    unfoldable pub user_withdrawals : Bytes → List Withdrawal → List UserWithdrawal
    unfolding transfers_to
    user_withdrawals addr [] = []
    user_withdrawals addr (w ∷ ws) = transfers_to addr w w.destinations ++ user_withdrawals addr ws

  module _ (round : F → F) where
    unfoldable pub round6 : F → F
    round6 x = div (round (mul x (of_ℕ 1000000))) (of_ℕ 1000000)

    unfoldable pub public_withdrawals : F → List Withdrawal → List PubWithdraw
    unfolding total_sent round6
    public_withdrawals coin [] = []
    public_withdrawals coin (w ∷ ws) =
        record {
          txid = w.txid;
          timestamp = w.timestamp;
          amount = round6 (div (of_ℕ (total_sent w.destinations 0)) coin);
          destinations = length w.destinations;
        }
        ∷ public_withdrawals coin ws

-- `math.MaxUint64/2`
abbrev pub huge : ℕ
huge = (2 ^ 64 - 1) / 2

-- The request for an address: refused, or the record that it shows.
pub data Shown : Type 0 where
  not_found : Shown
  shown : Bytes → AddrInfo → Shown

pub record ApiConfig : Type 0 where
  pub pool_address : Bytes
  pub fee_address : Bytes
  pub master_pass : Bytes

module _ (store : Store) where
  open store use {B, get, put, walk}

  -- The update of the database behind a request: the record that is shown and the bucket. A balance
  -- that is too large to be one is set to 0; `none` is a panic. A record that cannot be read is shown as
  -- far as it could be, and nothing is written.
  unfoldable pub checked_info : Bytes → B → Option (AddrInfo × B)
  checked_info addr b = elim (get addr b) [
    | none ↦ some (no_info, b)
    | some v ↦ elim (deserialize_addr_info v) [
      | none ↦ none
      | some (info, some e) ↦ some (info, b)
      | some (info, none) ↦
          let info' : AddrInfo = record info { balance = 0 } in
          if ltb huge info.balance
          then some
              (info', elim (put addr (serialize_addr_info info') b) [ none ↦ b | some b' ↦ b' ])
          else some (info, b)
    ]
  ]

  -- `/stats/:addr`: the pool's own addresses are shown with the password behind them only.
  unfoldable pub show_address : ApiConfig → Bytes → B → Option (Shown × B)
  unfolding checked_info split
  show_address c param b = elim (split 43 param) [
    | [] ↦ some (not_found, b)
    | addr ∷ rest ↦
        let knows : Bool = elim rest [ [] ↦ false | pass ∷ more ↦ pass =? c.master_pass ] in
        if (addr =? c.pool_address || addr =? c.fee_address) && not knows
        then some (not_found, b)
        else elim (checked_info addr b) [
          | none ↦ none
          | some (info, b') ↦ some (shown addr info, b')
        ]
  ]

  module _ (float : Float) (coin : float.F) where
    open float use {F, of_ℕ, sub, div, lt}

    -- `GetDebt`; `balance` is what the wallet answers, `none` an error. The outer `none` is a panic.
    unfoldable pub get_debt : Option ℕ → B → Option F
    unfolding sums
    get_debt balance b = elim (sums (walk b) 0 0) [
      | none ↦ none
      | some ((confirmed, pending), false) ↦ some (of_ℕ 0)
      | some ((confirmed, pending), true) ↦ elim balance [
        | none ↦ some (of_ℕ 0)
        | some owned ↦ some (
            if lt (of_ℕ owned) (of_ℕ 1)
            then of_ℕ 0
            else div (sub (sub (of_ℕ owned) (of_ℕ confirmed)) (of_ℕ pending)) coin)
      ]
    ]
