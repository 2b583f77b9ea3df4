-- ===== src/Master/Withdraw/Owed.antt =====
-- What a bucket owes: the balances of the addresses of a walk over it.
use xelis_pool.Common.{
  ℕ, ◌+◌, ◌≡◌, ◌∙◌, refl, true, false, Option, some, List, [], ◌∷◌, ◌++◌, arith,
}
use xelis_pool.Common.Bytes.{Bytes, ◌=?◌, =?_iff, =?_refl}
use xelis_pool.Common.Assoc.{absent}
use xelis_pool.Serializer.Reader.{Error}
use xelis_pool.Database.Records.{AddrInfo}
use xelis_pool.Database.Encode.{serialize_addr_info}
use xelis_pool.Database.Decode.{deserialize_addr_info}
use xelis_pool.Database.RoundTrip.{IsInfo, deserialize_addr_info-serialize_addr_info}
use xelis_pool.Master.Store.{Store, balance_at}
use xelis_pool.Master.Withdraw.{Config, TransferOut}

unfoldable pub total_amount : List TransferOut → ℕ
total_amount [] = 0
total_amount (t ∷ ts) = t.amount + total_amount ts

pub total_amount-append :
    (ts : List TransferOut) (t : TransferOut)
    → total_amount (ts ++ (t ∷ [])) ≡ total_amount ts + t.amount
unfolding total_amount
total_amount-append [] t = omega arith
total_amount-append (x ∷ ts) t = omega (arith, total_amount-append ts t)

module _ (store : Store) (c : Config) where
  open store use {B, get, put, walk, get_put}

  pub balance_at-put :
      (key : Bytes) (info : AddrInfo) (b b' : B)
      → IsInfo info
      → put key (serialize_addr_info info) b ≡ some b'
      → balance_at store key b' ≡ info.balance
  unfolding balance_at
  balance_at-put key info b b' h e = ground (
    arith,
    =?_refl key,
    get_put key key (serialize_addr_info info) b b' e,
    deserialize_addr_info-serialize_addr_info info h,
  )

  pub balance_at-get :
      (key val : Bytes) (b : B) {info : AddrInfo} {e : Option Error}
      → get key b ≡ some val
      → deserialize_addr_info val ≡ some (info, e)
      → balance_at store key b ≡ info.balance
  unfolding balance_at
  balance_at-get key val b g d = ground arith

  get_put_ne :
      (key j val : Bytes) (b b' : B)
      → put key val b ≡ some b'
      → (key =? j) ≡ false
      → get j b' ≡ get j b
  get_put_ne key j val b b' e ne = ground (arith, get_put key j val b b' e)

  -- The balances of the addresses of a walk.
  unfoldable pub owed : List (Bytes × Bytes) → B → ℕ
  owed [] b = 0
  owed ((key, val) ∷ l) b = balance_at store key b + owed l b

  -- A walk shows each key once, with its value.
  abbrev pub IsWalk : List (Bytes × Bytes) → B → Type 0
  IsWalk [] b = Unit
  IsWalk ((key, val) ∷ l) b = (get key b ≡ some val) × (absent key l ≡ true) × IsWalk l b

  -- A step that leaves a walk's keys alone leaves the walk and what it is owed.
  module _ (key : Bytes) (b b' : B)
      (frame : (j : Bytes) → (key =? j) ≡ false → get j b' ≡ get j b) where
    pub IsWalk-frame : (l : List (Bytes × Bytes)) → absent key l ≡ true → IsWalk l b → IsWalk l b'
    unfolding absent
    IsWalk-frame [] h w = tt
    IsWalk-frame ((j, val) ∷ l) h (g, a, w) = (
      frame j (ground (arith, =?_iff j key, =?_iff key j)) ∙ g,
      a,
      IsWalk-frame l (ground arith) w,
    )

    pub owed-frame : (l : List (Bytes × Bytes)) → absent key l ≡ true → owed l b' ≡ owed l b
    unfolding absent owed balance_at
    owed-frame [] h = refl
    owed-frame ((j, val) ∷ l) h = ground (arith, =?_iff j key, =?_iff key j, frame j, owed-frame l)

  pub balance_at-eq :
      (j : Bytes) (b b' : B) → get j b' ≡ get j b → balance_at store j b' ≡ balance_at store j b
  unfolding balance_at
  balance_at-eq j b b' h = ground arith
