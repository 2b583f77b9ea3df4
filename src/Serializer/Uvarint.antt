-- ===== src/Serializer/Uvarint.antt =====
-- encoding/binary's variable-length integers, which serializer/ calls.
pub mod Laws
use xelis_pool.Common.{
  ℕ, zero, suc, ◌+◌, ◌*◌, ◌/◌, ◌%◌, ◌^◌, ◌&&◌, [], ◌∷◌, ◌++◌, ltb, ◌==◌, if◌then◌else◌,
}
use xelis_pool.Common.Bytes.{Bytes}

-- `for x >= 0x80 { append(byte(x) | 0x80); x >>= 7 }; append(byte(x))`, where `byte(x) | 0x80` is
-- `x % 128 + 128`. A uint64 has ten groups of seven bits, so nine rounds are enough.
unfoldable pub groups : ℕ → ℕ → Bytes
groups zero x = x % 256 ∷ []
groups (suc fuel) x =
    let rest = groups fuel (x / 128) in if ltb x 128 then x ∷ [] else (x % 128 + 128) ∷ rest

abbrev pub append_uvarint : Bytes → ℕ → Bytes
append_uvarint buf x = buf ++ groups 9 x

-- The value and the bytes read (n > 0); a buffer too small (n = 0); an overflow (n < 0).
pub data Varint : Type 0 where
  read : ℕ → ℕ → Varint
  small : Varint
  overflow : ℕ → Varint

-- `x |= uint64(b & 0x7f) << s`: the bits below `s` are those of `x`, so `|` adds.
abbrev pub add_group : ℕ → ℕ → ℕ → ℕ
add_group x b s = (x + b % 128 * 2 ^ s % 2 ^ 64) % 2 ^ 64

unfoldable pub uvarint_loop : Bytes → ℕ → ℕ → ℕ → Varint
uvarint_loop [] i x s = small
uvarint_loop (b ∷ bs) i x s =
    let next = uvarint_loop bs (i + 1) (add_group x b s) (s + 7) in
    if i == 10
    then overflow (i + 1)
    else if ltb b 128
    then (if i == 9 && ltb 1 b then overflow (i + 1) else read (add_group x b s) (i + 1))
    else next

unfoldable pub uvarint : Bytes → Varint
uvarint buf = uvarint_loop buf 0 0 0
