-- ===== src/Master/Confirm/Credits.antt =====
-- What the confirmation of a reward does to the balances and to the list of pending transactions.
use xelis_pool.Common.{
  ℕ, ◌+◌, ◌%◌, ◌^◌, ◌≡◌, ◌∙◌, true, false, Bool, none, some, List, [], ◌∷◌, Option, Option-cases,
  inl, inr, arith, if◌then◌else◌, Bool-cases,
}
use mathlib.Core.Path.{subst}
use xelis_pool.Common.Bytes.{Bytes, ◌=?◌, =?_iff, =?_refl}
use xelis_pool.Common.Assoc.{Assoc, lookup_or, absent, Separate}
use xelis_pool.Database.Records.{AddrInfo}
use xelis_pool.Database.Encode.{serialize_addr_info}
use xelis_pool.Database.Decode.{deserialize_addr_info}
use xelis_pool.Database.RoundTrip.{IsInfo, deserialize_addr_info-serialize_addr_info}
use xelis_pool.Database.Faults.{deserialize_addr_info-IsInfo}
use xelis_pool.Master.Float.{Float}
use xelis_pool.Master.Store.{Store, balance_at, balance_of}
use xelis_pool.Master.Confirm.{is_banned, credit_info, stored_info, scaled, credit_one, credit_loop}

credit_info-IsInfo :
    (banned : Bool) (n : ℕ) (info : AddrInfo) → IsInfo info → IsInfo (credit_info banned n info)
unfolding credit_info
credit_info-IsInfo true n info h = (omega arith, omega arith, h.2)
credit_info-IsInfo false n info h = (omega arith, h.1, h.2)

-- The record read for an address has uint64 fields, and the balance that is stored.
stored_info_lem :
    (r : Option Bytes) (info : AddrInfo)
    → stored_info r ≡ some info
    → IsInfo info
      × ((elim r [ none ↦ 0 | some v ↦ balance_of (deserialize_addr_info v) ]) ≡ info.balance)
unfolding stored_info balance_of
stored_info_lem none info e = ground (arith, e)
stored_info_lem (some v) info e = elim (Option-cases (deserialize_addr_info v)) [
  | inl f ↦ absurd (ground (arith, f))
  | inr ((x, some err), f) ↦ absurd (ground (arith, f))
  | inr ((x, none), f) ↦ ground (arith, f, deserialize_addr_info-IsInfo v f)
]

balance_at-put :
    (store : Store) (key : Bytes) (info : AddrInfo) (b b' : store.B)
    → IsInfo info
    → store.put key (serialize_addr_info info) b ≡ some b'
    → balance_at store key b' ≡ info.balance
unfolding balance_at balance_of
balance_at-put store key info b b' h e = ground (
  arith,
  =?_refl key,
  store.get_put key key (serialize_addr_info info) b b' e,
  deserialize_addr_info-serialize_addr_info info h,
)

module _ (float : Float) (store : Store) (banned : List Bytes) where
  open float use {F}
  open store use {B, get, put, get_put}

  -- The balance of an address behind the loop: a banned address has none, another of the
  -- transaction has its scaled amount more, in uint64, and the rest keep theirs.
  unfoldable pub balance_after : F → Assoc ℕ → Bytes → ℕ → ℕ
  balance_after m bals k old =
      if absent k bals
      then old
      else if is_banned banned k
      then 0
      else (old + scaled float m (lookup_or 0 k bals)) % 2 ^ 64

  credit_one_self :
      (m : F) (k : Bytes) (v : ℕ) (b b' : B)
      → credit_one float store banned m k v b ≡ some b'
      → balance_at store k b'
        ≡ (if is_banned banned k then 0 else (balance_at store k b + scaled float m v) % 2 ^ 64)
  unfolding credit_one
  credit_one_self m k v b b' e = elim (Option-cases (stored_info (get k b))) [
    | inl f ↦ absurd (ground (arith, f))
    | inr (info, f) ↦
        let (fits, old) = stored_info_lem (get k b) info f in
        let new : AddrInfo = credit_info (is_banned banned k) (scaled float m v) info in
        let stored : put k (serialize_addr_info new) b ≡ some b' = ground (arith, f) in
        let found : balance_at store k b' ≡ new.balance =
          balance_at-put store k new b b'
            (credit_info-IsInfo (is_banned banned k) (scaled float m v) info fits) stored in
        let before : balance_at store k b ≡ info.balance = unfold balance_at in old in
        found ∙ unfold credit_info in ground (arith, before)
  ]

  credit_one_other :
      (m : F) (k j : Bytes) (v : ℕ) (b b' : B)
      → credit_one float store banned m k v b ≡ some b'
      → (k =? j) ≡ false
      → balance_at store j b' ≡ balance_at store j b
  unfolding credit_one balance_at
  credit_one_other m k j v b b' e ne = elim (Option-cases (stored_info (get k b))) [
    | inl f ↦ absurd (ground (arith, f))
    | inr (info, f) ↦ ground (
      arith,
      f,
      get_put k j (serialize_addr_info (credit_info (is_banned banned k) (scaled float m v) info)) b
          b',
    )
  ]

  -- After a successful crediting of a transaction, whose addresses are distinct as the keys of a
  -- map are: a banned address of it has no balance, each other address of it has its scaled amount
  -- more, in uint64, and every other address keeps its balance.
  pub credit_loop_lem :
      (m : F) (bals : Assoc ℕ) (b b' : B) (k : Bytes)
      → Separate bals
      → credit_loop float store banned m bals b ≡ some b'
      → balance_at store k b' ≡ balance_after m bals k (balance_at store k b)
  unfolding credit_loop balance_after absent lookup_or
  credit_loop_lem m [] b b' k d e = ground arith
  credit_loop_lem m ((j, v) ∷ bals) b b' k d e =
      elim (Option-cases (credit_one float store banned m j v b)) [
        | inl f ↦ absurd (ground (arith, f))
        | inr (b1, f) ↦ elim (Bool-cases (j =? k)) [
          | inl same ↦
              let p : j ≡ k = (=?_iff j k).0 same in
              let self : balance_at store k b1 ≡ (
                  if is_banned banned k
                  then 0
                  else (balance_at store k b + scaled float m v) % 2 ^ 64) =
                subst
                  (λ i. balance_at store i b1 ≡ (
                    if is_banned banned i
                    then 0
                    else (balance_at store i b + scaled float m v) % 2 ^ 64))
                  p (credit_one_self m j v b b1 f) in
              let once : absent k bals ≡ true = subst (λ i. absent i bals ≡ true) p d.0 in
              ground (arith, f, self, once, credit_loop_lem m bals b1 b' k d.1)
          | inr other ↦
              ground (
                arith,
                f,
                credit_one_other m j k v b b1 f other,
                credit_loop_lem m bals b1 b' k d.1,
              )
        ]
      ]
