-- ===== src/Database/Faults.antt =====
-- Where the readers of database/database.go panic, and where they cannot.
use xelis_pool.Common.{
  ℕ, ◌<◌, ◌≡◌, ◌≢◌, none, some, [], ◌∷◌, ◌++◌, length, arith, inl, inr, Option, Option-cases,
}
use xelis_pool.Common.Bytes.{Bytes, IsU64}
use xelis_pool.Serializer.Uvarint.{groups}
use xelis_pool.Serializer.Reader.{
  Deserializer, invalid_length, fixed, read_uint8, read_uvarint, read_fixed_byte_array, Error,
}
use xelis_pool.Serializer.Panics.{read_uvarint-ne-none}
use xelis_pool.Serializer.RoundTrip.{ready, read_uint8-append, read_uvarint-append}
use xelis_pool.Serializer.Uvarint.Laws.{uvarint_bounds}
use xelis_pool.Database.Records.{AddrInfo}
use xelis_pool.Database.RoundTrip.{IsInfo}
use xelis_pool.Database.Decode.{open_reader, deserialize_unconf_tx, deserialize_addr_info}

short_array :
    (bs : Bytes)
    → length bs < 32
    → read_fixed_byte_array 32 (ready bs)
      ≡ some ([], record { bytes = bs; error = some invalid_length })
unfolding read_fixed_byte_array fixed
short_array bs h = ground arith

-- `UnconfTx.Deserialize` panics on data that, behind the version and a uint64 height, end inside
-- the block hash: the failed read gives an empty slice, and its conversion to an array of 32 bytes
-- panics before the error is looked at.
pub deserialize_unconf_tx_short_hash :
    (height : ℕ) (bs : Bytes)
    → IsU64 height
    → length bs < 32
    → deserialize_unconf_tx (0 ∷ (groups 9 height ++ bs)) ≡ none
unfolding deserialize_unconf_tx
deserialize_unconf_tx_short_hash height bs hv h = ground (
  arith,
  read_uint8-append 0 (groups 9 height ++ bs),
  read_uvarint-append height bs hv,
  short_array bs h,
)

read_uint8-ne-none : (d : Deserializer) → read_uint8 d ≢ none
unfolding read_uint8 fixed
read_uint8-ne-none d e = ground arith

-- `AddrInfo.Deserialize` panics on no data, well formed or not.
pub deserialize_addr_info-ne-none : (bs : Bytes) → deserialize_addr_info bs ≢ none
unfolding deserialize_addr_info
deserialize_addr_info-ne-none bs e = grind (arith, read_uvarint-ne-none, read_uint8-ne-none)

read_uvarint-IsU64 :
    (d : Deserializer) {v : ℕ} {d' : Deserializer} → read_uvarint d ≡ some (v, d') → IsU64 v
unfolding read_uvarint
read_uvarint-IsU64 d {v} {d'} e = grind (arith, uvarint_bounds)

-- Whatever was stored, the fields of a decoded record are uint64.
pub deserialize_addr_info-IsInfo :
    (bs : Bytes) {x : AddrInfo} {e : Option Error}
    → deserialize_addr_info bs ≡ some (x, e)
    → IsInfo x
unfolding deserialize_addr_info
deserialize_addr_info-IsInfo bs h = elim (Option-cases (read_uint8 (open_reader bs))) [
  | inl e0 ↦ ground (arith, e0)
  | inr ((k, d0), e0) ↦ elim (Option-cases (read_uvarint d0)) [
    | inl e1 ↦ ground (arith, e0, e1)
    | inr ((v1, d1), e1) ↦ elim (Option-cases (read_uvarint d1)) [
      | inl e2 ↦ ground (arith, e0, e1, e2)
      | inr ((v2, d2), e2) ↦ elim (Option-cases (read_uvarint d2)) [
        | inl e3 ↦ ground (arith, e0, e1, e2, e3)
        | inr ((v3, d3), e3) ↦ ground (
          arith,
          e0,
          e1,
          e2,
          e3,
          read_uvarint-IsU64 d0 e1,
          read_uvarint-IsU64 d1 e2,
          read_uvarint-IsU64 d2 e3,
        )
      ]
    ]
  ]
]
