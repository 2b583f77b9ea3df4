-- ===== src/Master/Store.antt =====
-- go.etcd.io/bbolt as the master uses it: a bucket of byte strings under byte strings. An update
-- that returns an error is rolled back; the functions that run in one return the new bucket only on
-- success.
use xelis_pool.Common.{ℕ, ◌≡◌, Option, none, some, List, if◌then◌else◌, arith}
use xelis_pool.Common.Bytes.{Bytes, ◌=?◌}
use xelis_pool.Common.Assoc.{Assoc, lookup, insert, lookup-insert}
use xelis_pool.Serializer.Reader.{Error}
use xelis_pool.Database.Records.{AddrInfo}
use xelis_pool.Database.Decode.{deserialize_addr_info}

-- `put` may fail, and then changes nothing. `walk` is what a cursor meets, from `First` on.
pub record Store : Type 1 where
  pub B : Type 0
  pub get : Bytes → B → Option Bytes
  pub put : Bytes → Bytes → B → Option B
  pub walk : B → List (Bytes × Bytes)
  pub get_put :
      (k j v : Bytes) (b b' : B)
      → put k v b ≡ some b'
      → get j b' ≡ (if k =? j then some v else get j b)

pub memory_get_put :
    (k j v : Bytes) (b b' : Assoc Bytes)
    → some (insert k v b) ≡ some b'
    → lookup j b' ≡ (if k =? j then some v else lookup j b)
memory_get_put k j v b b' e = ground (arith, lookup-insert k j v b)

-- A bucket in memory.
abbrev pub memory : Store
memory = record {
  B = Assoc Bytes;
  get = lookup;
  put = λ k v b. some (insert k v b);
  walk = λ b. b;
  get_put = memory_get_put;
}

-- The balance that a bucket of address records holds for an address.
unfoldable pub balance_of : Option (AddrInfo × Option Error) → ℕ
balance_of none = 0
balance_of (some (info, e)) = info.balance

module _ (store : Store) where
  open store use {B, get}

  unfoldable pub balance_at : Bytes → B → ℕ
  unfolding balance_of
  balance_at k b = elim (get k b) [ none ↦ 0 | some v ↦ balance_of (deserialize_addr_info v) ]
