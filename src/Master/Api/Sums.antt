-- ===== src/Master/Api/Sums.antt =====
-- What the requests to the web server leave alone, and the sum of the balances.
use xelis_pool.Common.{
  ℕ, ◌+◌, ◌%◌, ◌^◌, ◌≤◌, ◌<◌, ◌≡◌, ◌⊎◌, refl, ap, true, Bool-cases, Option-cases, inl, inr, none,
  some, List, [], ◌∷◌, arith, ltb,
}
use xelis_pool.Common.Bytes.{Bytes, ◌=?◌, =?_iff}
use xelis_pool.Common.Text.{split}
use xelis_pool.Database.Records.{AddrInfo}
use xelis_pool.Database.Encode.{serialize_addr_info}
use xelis_pool.Database.Decode.{deserialize_addr_info}
use xelis_pool.Master.Store.{Store, balance_at, balance_of}
use xelis_pool.Master.Withdraw.{Config}
use xelis_pool.Master.Withdraw.Owed.{owed, IsWalk}
use xelis_pool.Master.Api.{sums, huge, Shown, shown, ApiConfig, checked_info, show_address}

module _ (store : Store) where
  open store use {B, get, put, walk, get_put}

  -- No record but one with a huge balance differs.
  abbrev pub KeepsRecords : B → B → Type 0
  KeepsRecords b b' = (j : Bytes) → balance_at store j b ≤ huge → get j b' ≡ get j b

  balance_at-read :
      (addr v : Bytes) (b : B) (info : AddrInfo)
      → get addr b ≡ some v
      → deserialize_addr_info v ≡ some (info, none)
      → balance_at store addr b ≡ info.balance
  unfolding balance_at balance_of
  balance_at-read addr v b info found read = rw (found, balance_at) (rw (read, balance_of) refl)

  put_huge :
      (addr v new : Bytes) (info : AddrInfo) (b b' : B)
      → get addr b ≡ some v
      → deserialize_addr_info v ≡ some (info, none)
      → huge < info.balance
      → put addr new b ≡ some b'
      → KeepsRecords b b'
  put_huge addr v new info b b' found read large done j small =
      let law = get_put addr j new b b' done in
      elim (Bool-cases (addr =? j)) [
        | inl same ↦
            let p : addr ≡ j = ground (arith, same, =?_iff addr j) in
            absurd (
              omega (
                arith,
                small,
                large,
                balance_at-read addr v b info found read,
                ap (λ k. balance_at store k b) p,
              ))
        | inr other ↦ ground (arith, law, other)
      ]

  checked_info-keeps :
      (addr : Bytes) (b b' : B) (info : AddrInfo)
      → checked_info store addr b ≡ some (info, b')
      → KeepsRecords b b'
  unfolding checked_info
  checked_info-keeps addr b b' info e j small = elim (Option-cases (get addr b)) [
    | inl missing ↦ ground (arith, missing)
    | inr (v, found) ↦ elim (Option-cases (deserialize_addr_info v)) [
      | inl panic ↦ ground (arith, found, panic)
      | inr ((x, some err), read) ↦ ground (arith, found, read)
      | inr ((x, none), read) ↦ elim (Bool-cases (ltb huge x.balance)) [
        | inl large ↦
            elim (Option-cases (put addr (serialize_addr_info (record x { balance = 0 })) b)) [
              | inl failed ↦ ground (arith, found, read, large, failed)
              | inr (b1, done) ↦ ground (
                arith,
                found,
                read,
                large,
                done,
                put_huge addr v (serialize_addr_info (record x { balance = 0 })) x b b1 found read
                    (ground (arith, large)) done j small,
              )
            ]
        | inr fine ↦ ground (arith, found, read, fine)
      ]
    ]
  ]

  -- The password stands behind an address of the pool.
  abbrev pub IsAllowed : ApiConfig → Bytes → Shown → Type 0
  IsAllowed c param out =
      (info : AddrInfo) (addr : Bytes)
      → out ≡ shown addr info
      → (addr ≡ c.pool_address) ⊎ (addr ≡ c.fee_address)
      → (rest : List Bytes) × (split 43 param ≡ addr ∷ c.master_pass ∷ rest)

  show_parts :
      (c : ApiConfig) (param : Bytes) (parts : List Bytes) (b b' : B) (out : Shown)
      → split 43 param ≡ parts
      → show_address store c param b ≡ some (out, b')
      → KeepsRecords b b' × IsAllowed c param out
  unfolding show_address
  show_parts c param [] b b' out q e =
      (λ j small. ground (arith, q, e), λ info a shows own. absurd (ground (arith, q, e, shows)))
  show_parts c param (addr ∷ []) b b' out q e = elim (Option-cases (checked_info store addr b)) [
    | inl panic ↦ (
      λ j small. ground (arith, q, e, panic),
      λ info a shows own. absurd (ground (arith, q, e, panic, shows)),
    )
    | inr ((x, b1), fine) ↦ (
      λ j small. ground (arith, q, e, fine, checked_info-keeps addr b b1 x fine j small),
      λ info a shows own. absurd (
          ground
            (arith, q, e, fine, shows, own, =?_iff addr c.pool_address, =?_iff addr c.fee_address)),
    )
  ]
  show_parts c param (addr ∷ pass ∷ more) b b' out q e =
      elim (Option-cases (checked_info store addr b)) [
        | inl panic ↦ (
          λ j small. ground (arith, q, e, panic),
          λ info a shows own. absurd (ground (arith, q, e, panic, shows)),
        )
        | inr ((x, b1), fine) ↦ (
          λ j small. ground (arith, q, e, fine, checked_info-keeps addr b b1 x fine j small),
          λ info a shows own. (
            more,
            ground (
              arith,
              q,
              e,
              fine,
              shows,
              own,
              =?_iff addr c.pool_address,
              =?_iff addr c.fee_address,
              =?_iff pass c.master_pass,
            ),
          ),
        )
      ]

  -- A request for an address changes no record of an address whose balance is at most half of
  -- the greatest uint64, whatever address it asks for; and the pool's own two addresses are not shown
  -- unless the password stands behind them.
  pub show_address_keeps :
      (c : ApiConfig) (param : Bytes) (b b' : B) (out : Shown)
      → show_address store c param b ≡ some (out, b')
      → KeepsRecords b b' × IsAllowed c param out
  show_address_keeps c param b b' out e = show_parts c param (split 43 param) b b' out refl e

  module _ (c : Config) where
    sums-owed :
        (l : List (Bytes × Bytes)) (b : B) (confirmed pending confirmed' pending' : ℕ)
        → confirmed < 2 ^ 64
        → IsWalk store c l b
        → sums l confirmed pending ≡ some ((confirmed', pending'), true)
        → confirmed' ≡ (confirmed + owed store c l b) % 2 ^ 64
    unfolding sums owed
    sums-owed [] b confirmed pending confirmed' pending' small w e = ground arith
    sums-owed ((key, val) ∷ l) b confirmed pending confirmed' pending' small (g, a, w) e =
        elim (Option-cases (deserialize_addr_info val)) [
          | inl panic ↦ ground (arith, panic)
          | inr ((x, some err), read) ↦ ground (arith, read)
          | inr ((x, none), read) ↦
              let rest : sums l ((confirmed + x.balance) % 2 ^ 64)
                    ((pending + x.balance_pending) % 2 ^ 64)
                  ≡ some ((confirmed', pending'), true) =
                ground (arith, read) in
              omega (
                arith,
                balance_at-read key val b x g read,
                sums-owed l b ((confirmed + x.balance) % 2 ^ 64)
                    ((pending + x.balance_pending) % 2 ^ 64) confirmed' pending' (omega arith) w
                    rest,
              )
        ]

    -- Where every record can be read, and the walk shows each key once with its stored value, the
    -- confirmed sum that the web server takes for the debt of the pool is what the payout owes:
    -- the balances of the records, added up in uint64.
    pub sums_are_owed :
        (b : B) (confirmed pending : ℕ)
        → IsWalk store c (walk b) b
        → sums (walk b) 0 0 ≡ some ((confirmed, pending), true)
        → confirmed ≡ owed store c (walk b) b % 2 ^ 64
    sums_are_owed b confirmed pending w e =
        omega (arith, sums-owed (walk b) b 0 0 confirmed pending (omega arith) w e)
