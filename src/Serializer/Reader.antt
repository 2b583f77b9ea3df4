-- ===== src/Serializer/Reader.antt =====
-- serializer/deserializer.go: the reader. An operation takes the state and gives the value with
-- the new state; `none` is a Go panic. `int` has 64 bits.
use xelis_pool.Common.{
  ℕ, ◌^◌, Bool, true, false, Option, none, some, [], length, take, drop, ltb, ◌==◌, if◌then◌else◌,
}
use xelis_pool.Common.Bytes.{Bytes, le_value}
use xelis_pool.Serializer.Uvarint.{Varint, read, small, overflow, uvarint}

pub data Error : Type 0 where
  invalid_length invalid_uvarint invalid_uvarint_length invalid_binary_length invalid_boolean :
      Error

pub record Deserializer : Type 0 where
  pub bytes : Bytes
  pub error : Option Error

abbrev pub Reader {ℓ} : Type ℓ → Type ℓ
Reader A = Deserializer → Option (A × Deserializer)

infixl 5 ◌>>=◌ ◌>>◌
abbrev pub ◌>>=◌ {ℓ κ} : {A : Type ℓ} {B : Type κ} → Reader A → (A → Reader B) → Reader B
◌>>=◌ m f d = elim (m d) [ none ↦ none | some (a, d') ↦ f a d' ]

abbrev pub ◌>>◌ {ℓ κ} : {A : Type ℓ} {B : Type κ} → Reader A → Reader B → Reader B
m >> k = m >>= λ _. k

abbrev pub pure {ℓ} : {A : Type ℓ} → A → Reader A
pure a d = some (a, d)

-- `s.Error = e` and the zero value.
abbrev pub fail {ℓ} : {A : Type ℓ} → Error → A → Reader A
fail e a d = some (a, record d { error = some e })

-- The first test of every operation: an earlier error stays, and the zero value is returned.
abbrev pub unless_failed {ℓ} : {A : Type ℓ} → A → Reader A → Reader A
unless_failed a m d = elim d.error [ none ↦ m d | some _ ↦ some (a, d) ]

-- `b := s.Data[:n]; s.Data = s.Data[n:]` behind the test of the length.
unfoldable pub fixed : ℕ → Reader Bytes
fixed n d =
    if ltb (length d.bytes) n
    then fail invalid_length [] d
    else some (take n d.bytes, record d { bytes = drop n d.bytes })

unfoldable pub read_uint8 : Reader ℕ
read_uint8 = unless_failed 0 (do b ← fixed 1; pure (le_value b))

unfoldable pub read_uint16 : Reader ℕ
read_uint16 = unless_failed 0 (do b ← fixed 2; pure (le_value b))

unfoldable pub read_uint32 : Reader ℕ
read_uint32 = unless_failed 0 (do b ← fixed 4; pure (le_value b))

unfoldable pub read_uint64 : Reader ℕ
read_uint64 = unless_failed 0 (do b ← fixed 8; pure (le_value b))

-- Only a negative count is refused: a truncated uvarint (count 0) reads as 0 and moves nothing.
unfoldable pub read_uvarint : Reader ℕ
read_uvarint = unless_failed 0 λ d.
    if ltb (length d.bytes) 1 then fail invalid_length 0 d else elim (uvarint d.bytes) [
      | read v n ↦ some (v, record d { bytes = drop n d.bytes })
      | small ↦ some (0, d)
      | overflow _ ↦ fail invalid_uvarint 0 d
    ]

unfoldable pub read_fixed_byte_array : ℕ → Reader Bytes
read_fixed_byte_array len = unless_failed [] (fixed len)

-- `len(s.Data) < int(length)`: from 2 ^ 63 on `int(length)` is negative, the test passes, and the
-- slice expression panics.
unfoldable pub slice_of : ℕ → Reader Bytes
slice_of len d =
    if ltb len (2 ^ 63)
    then (if ltb (length d.bytes) len
        then fail invalid_binary_length [] d
        else some (take len d.bytes, record d { bytes = drop len d.bytes }))
    else none

unfoldable pub slice_after : Varint → Reader Bytes
slice_after (read len n) d = slice_of len (record d { bytes = drop n d.bytes })
slice_after small d = slice_of 0 d
slice_after (overflow _) d = fail invalid_uvarint_length [] d

unfoldable pub read_byte_slice : Reader Bytes
unfolding slice_after
read_byte_slice = unless_failed [] λ d.
    if ltb (length d.bytes) 1 then fail invalid_length [] d else slice_after (uvarint d.bytes) d

unfoldable pub read_string : Reader Bytes
unfolding read_byte_slice
read_string = read_byte_slice

-- A byte that is neither 0 nor 1 is consumed before the error.
unfoldable pub bool_of : ℕ → Reader Bool
bool_of b d =
    if b == 1
    then some (true, d)
    else if b == 0
    then some (false, d)
    else fail invalid_boolean false d

unfoldable pub read_bool : Reader Bool
unfolding bool_of
read_bool = unless_failed false λ d.
    if ltb (length d.bytes) 1
    then fail invalid_length false d
    else bool_of (le_value (take 1 d.bytes)) (record d { bytes = drop 1 d.bytes })
