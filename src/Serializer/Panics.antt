-- ===== src/Serializer/Panics.antt =====
-- Which reads can panic, and what an error does to the reads after it.
use xelis_pool.Common.{
  ℕ, ◌^◌, ◌≤◌, ◌<◌, ◌≡◌, ◌↔◌, none, some, [], arith, length, refl, drop, false, ◌≢◌,
}
use xelis_pool.Serializer.Uvarint.{Varint, read, small, overflow, uvarint}
use xelis_pool.Serializer.Reader.{
  Error, Deserializer, slice_of, slice_after, read_uvarint, read_byte_slice, read_uint8,
  read_uint16, read_uint32, read_uint64, read_fixed_byte_array, read_bool,
}

-- The declared length of a slice is one that `int` makes negative.
abbrev pub DeclaresHuge : Deserializer → Type 0
DeclaresHuge d =
    (d.error ≡ none)
    × (0 < length d.bytes)
    × ((v : ℕ) × (n : ℕ) × (uvarint d.bytes ≡ read v n) × (2 ^ 63 ≤ v))

slice_of_panic : (v : ℕ) (d : Deserializer) → slice_of v d ≡ none → 2 ^ 63 ≤ v
unfolding slice_of
slice_of_panic v d e = ground arith

slice_of_huge : (v : ℕ) (d : Deserializer) → 2 ^ 63 ≤ v → slice_of v d ≡ none
unfolding slice_of
slice_of_huge v d h = ground arith

slice_after_panic :
    (x : Varint) (d : Deserializer)
    → slice_after x d ≡ none
    → (v : ℕ) × (n : ℕ) × (x ≡ read v n) × (2 ^ 63 ≤ v)
unfolding slice_after
slice_after_panic (read v n) d e = (v, n, refl, slice_of_panic v _ e)
slice_after_panic small d e = absurd (omega (arith, slice_of_panic 0 d e))
slice_after_panic (overflow k) d e = cc

panic→huge : (d : Deserializer) → read_byte_slice d ≡ none → DeclaresHuge d
unfolding read_byte_slice
panic→huge d e =
    let failed : d.error ≡ none = ground arith in
    let more : 0 < length d.bytes = ground arith in
    (failed, more, slice_after_panic (uvarint d.bytes) d (ground arith))

huge→panic :
    (d : Deserializer) (v n : ℕ)
    → d.error ≡ none
    → 0 < length d.bytes
    → uvarint d.bytes ≡ read v n
    → 2 ^ 63 ≤ v
    → read_byte_slice d ≡ none
unfolding read_byte_slice
huge→panic d v n e more u huge =
    ground (arith, slice_of_huge v (record d { bytes = drop n d.bytes }) huge)

-- `ReadByteSlice` panics exactly where there was no error before, data is left, and the uvarint in
-- front of it is 2 ^ 63 or more.
pub read_byte_slice_panics : (d : Deserializer) → (read_byte_slice d ≡ none) ↔ DeclaresHuge d
read_byte_slice_panics d = (panic→huge d, λ h. huge→panic d h.2.0 h.2.1 h.0 h.1 h.2.2 h.2.3)

-- After an error every read gives its zero value, and changes nothing.
pub failed_reads :
    (d : Deserializer) (e : Error) (n : ℕ)
    → d.error ≡ some e
    → (read_uint8 d ≡ some (0, d))
      × (read_uint16 d ≡ some (0, d))
      × (read_uint32 d ≡ some (0, d))
      × (read_uint64 d ≡ some (0, d))
      × (read_uvarint d ≡ some (0, d))
      × (read_fixed_byte_array n d ≡ some ([], d))
      × (read_byte_slice d ≡ some ([], d))
      × (read_bool d ≡ some (false, d))
unfolding read_uint8 read_uint16 read_uint32 read_uint64 read_uvarint read_fixed_byte_array
    read_byte_slice read_bool
failed_reads d e n h = (
  ground arith,
  ground arith,
  ground arith,
  ground arith,
  ground arith,
  ground arith,
  ground arith,
  ground arith,
)

-- `ReadUvarint` never panics.
pub read_uvarint-ne-none : (d : Deserializer) → read_uvarint d ≢ none
unfolding read_uvarint
read_uvarint-ne-none d e = ground arith
