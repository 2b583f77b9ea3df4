-- ===== src/Serializer/RoundTrip.antt =====
-- What the writer appends, the reader gives back, and it leaves what follows.
use mathlib.Core.Path.{subst}
use xelis_pool.Common.{
  [], append-nil, ℕ, ◌^◌, ◌<◌, ◌≡◌, none, some, ◌∷◌, ◌++◌, length, arith, ge→ltb, lt→ltb,
  length-append, take-append, drop-append, append_assoc,
}
use xelis_pool.Common.Bytes.{
  Bytes, IsU64, le_bytes, le_value, length-le_bytes, le_value-le_bytes, be_value,
}
use xelis_pool.Common.Big.{big_bytes, big_bytes-value}
use xelis_pool.Serializer.Writer.{Serializer, add_big_int}
use xelis_pool.Serializer.Uvarint.{groups}
use xelis_pool.Serializer.Uvarint.Laws.{length-groups, uvarint-groups}
use xelis_pool.Serializer.Reader.{
  read_string, Deserializer, fixed, slice_of, read_uint8, read_uint64, read_uvarint,
  read_fixed_byte_array, read_byte_slice,
}

-- A reader at `bs` with no error so far.
abbrev pub ready : Bytes → Deserializer
ready bs = record { bytes = bs; error = none }

pub fixed-append :
    (bs rest : Bytes) → fixed (length bs) (ready (bs ++ rest)) ≡ some (bs, ready rest)
unfolding fixed
fixed-append bs rest =
    rw (ge→ltb (length (bs ++ rest)) (length bs) (omega (arith, length-append bs rest)))
      (rw (take-append bs rest, drop-append bs rest))

pub fixed-append_at :
    (n : ℕ) (bs rest : Bytes) → length bs ≡ n → fixed n (ready (bs ++ rest)) ≡ some (bs, ready rest)
fixed-append_at n bs rest e =
    subst (λ k. fixed k (ready (bs ++ rest)) ≡ some (bs, ready rest)) e (fixed-append bs rest)

pub read_fixed_byte_array-append :
    (n : ℕ) (bs rest : Bytes)
    → length bs ≡ n
    → read_fixed_byte_array n (ready (bs ++ rest)) ≡ some (bs, ready rest)
unfolding read_fixed_byte_array
read_fixed_byte_array-append n bs rest e = fixed-append_at n bs rest e

pub read_uint8-append :
    (b : ℕ) (rest : Bytes) → read_uint8 (ready (b ∷ rest)) ≡ some (b, ready rest)
unfolding read_uint8 le_value
read_uint8-append b rest = ground (arith, fixed-append (b ∷ []) rest)

pub read_uint64-append :
    (v : ℕ) (rest : Bytes)
    → IsU64 v
    → read_uint64 (ready (le_bytes 8 v ++ rest)) ≡ some (v, ready rest)
unfolding read_uint64
read_uint64-append v rest h =
    ground
      (arith, fixed-append_at 8 (le_bytes 8 v) rest, length-le_bytes 8 v, le_value-le_bytes 8 v h)

pub read_uvarint-append :
    (v : ℕ) (rest : Bytes)
    → IsU64 v
    → read_uvarint (ready (groups 9 v ++ rest)) ≡ some (v, ready rest)
unfolding read_uvarint
read_uvarint-append v rest h = ground (
  arith,
  length-append (groups 9 v) rest,
  length-groups 9 v,
  uvarint-groups v rest h,
  drop-append (groups 9 v) rest,
)

pub slice_of-append :
    (bs rest : Bytes)
    → length bs < 2 ^ 63
    → slice_of (length bs) (ready (bs ++ rest)) ≡ some (bs, ready rest)
unfolding slice_of
slice_of-append bs rest h = rw (lt→ltb (length bs) (2 ^ 63) h) (
    rw (ge→ltb (length (bs ++ rest)) (length bs) (omega (arith, length-append bs rest)))
      (rw (take-append bs rest, drop-append bs rest)))

-- A byte slice with its length in front; the length is below 2 ^ 63, as that of any Go slice.
pub read_byte_slice-append :
    (bs rest : Bytes)
    → length bs < 2 ^ 63
    → read_byte_slice (ready (groups 9 (length bs) ++ (bs ++ rest))) ≡ some (bs, ready rest)
unfolding read_byte_slice
read_byte_slice-append bs rest h =
    let head : Bytes = groups 9 (length bs) in
    ground (
      arith,
      length-append head (bs ++ rest),
      length-groups 9 (length bs),
      uvarint-groups (length bs) (bs ++ rest),
      drop-append head (bs ++ rest),
      slice_of-append bs rest h,
    )

-- A string is shorter than 2 ^ 63, as every Go string.
pub read_string-append :
    (bs rest : Bytes)
    → length bs < 2 ^ 63
    → read_string (ready (groups 9 (length bs) ++ (bs ++ rest))) ≡ some (bs, ready rest)
unfolding read_string
read_string-append bs rest h = read_byte_slice-append bs rest h

pub read_uint64_last : (v : ℕ) → IsU64 v → read_uint64 (ready (le_bytes 8 v)) ≡ some (v, ready [])
read_uint64_last v h = rw append-nil at (read_uint64-append v [] h)

pub read_uvarint_last : (v : ℕ) → IsU64 v → read_uvarint (ready (groups 9 v)) ≡ some (v, ready [])
read_uvarint_last v h = rw append-nil at (read_uvarint-append v [] h)

-- A number of any size comes back as its bytes, which have its value.
pub read_byte_slice-add_big_int :
    (s : Serializer) (n : ℕ) (rest : Bytes)
    → length (big_bytes n) < 2 ^ 63
    → (written : Bytes) × ((add_big_int s n).bytes ≡ s.bytes ++ written)
      × (read_byte_slice (ready (written ++ rest)) ≡ some (big_bytes n, ready rest))
      × (be_value (big_bytes n) ≡ n)
unfolding add_big_int
read_byte_slice-add_big_int s n rest h =
    let head : Bytes = groups 9 (length (big_bytes n)) in
    (
      head ++ big_bytes n,
      append_assoc s.bytes head (big_bytes n),
      rw (append_assoc head (big_bytes n) rest) (read_byte_slice-append (big_bytes n) rest h),
      big_bytes-value n,
    )
