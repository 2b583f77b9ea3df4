-- ===== src/Serializer/Writer.antt =====
-- serializer/serializer.go: the writer. `Data` is the field `bytes`.
use xelis_pool.Common.{ℕ, Bool, Option, none, some, [], ◌∷◌, ◌++◌, length, ◌==◌, if◌then◌else◌}
use xelis_pool.Common.Bytes.{Bytes, le_bytes}
use xelis_pool.Common.Big.{big_bytes}
use xelis_pool.Serializer.Uvarint.{append_uvarint}

pub record Serializer : Type 0 where
  pub bytes : Bytes

module _ (s : Serializer) where
  unfoldable pub add_uint8 : ℕ → Serializer
  add_uint8 n = record { bytes = s.bytes ++ (n ∷ []) }

  unfoldable pub add_uint16 : ℕ → Serializer
  add_uint16 n = record { bytes = s.bytes ++ le_bytes 2 n }

  unfoldable pub add_uint32 : ℕ → Serializer
  add_uint32 n = record { bytes = s.bytes ++ le_bytes 4 n }

  unfoldable pub add_uint64 : ℕ → Serializer
  add_uint64 n = record { bytes = s.bytes ++ le_bytes 8 n }

  unfoldable pub add_uvarint : ℕ → Serializer
  add_uvarint n = record { bytes = append_uvarint s.bytes n }

  -- `none` is the panic on a wrong length.
  unfoldable pub add_fixed_byte_array : Bytes → ℕ → Option Serializer
  add_fixed_byte_array a len =
      if length a == len then some (record { bytes = s.bytes ++ a }) else none

  unfoldable pub add_byte_slice : Bytes → Serializer
  add_byte_slice a = record { bytes = append_uvarint s.bytes (length a) ++ a }

  -- A string is its bytes.
  unfoldable pub add_string : Bytes → Serializer
  unfolding add_byte_slice
  add_string a = add_byte_slice a

  unfoldable pub add_big_int : ℕ → Serializer
  add_big_int n = record { bytes = append_uvarint s.bytes (length (big_bytes n)) ++ big_bytes n }

  unfoldable pub add_bool : Bool → Serializer
  add_bool b = record { bytes = s.bytes ++ (if b then 1 ∷ [] else 0 ∷ []) }
