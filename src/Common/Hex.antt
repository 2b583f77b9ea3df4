-- ===== src/Common/Hex.antt =====
-- encoding/hex: lower-case output, either case on input.
use xelis_pool.Common.Tests.{ltb, leb, if◌then◌else◌, Option-cases}
use mathlib.Core.Logic.{inl, inr}
use xelis_pool.Common.Bytes.{Bytes, IsBytes}
use Prim.Native.Nat.{ℕ, ◌+◌, ◌-◌, ◌*◌, ◌/◌, ◌%◌, ◌<◌}
use mathlib.Core.Path.{◌≡◌, refl}
use mathlib.Core.Bool.{◌&&◌}
use mathlib.Core.Option.{Option, none, some}
use mathlib.Core.List.{[], ◌∷◌}
use native.Mathlib.Omega.{arith}

hex_digit : ℕ → ℕ
hex_digit d = if ltb d 10 then b'0' + d else b'a' + (d - 10)

unfoldable pub encode_hex : Bytes → Bytes
unfolding hex_digit
encode_hex [] = []
encode_hex (b ∷ bs) = hex_digit (b / 16) ∷ hex_digit (b % 16) ∷ encode_hex bs

hex_value : ℕ → Option ℕ
hex_value c =
    if leb b'0' c && leb c b'9'
    then some (c - b'0')
    else if leb b'a' c && leb c b'f'
    then some (c - b'a' + 10)
    else if leb b'A' c && leb c b'F'
    then some (c - b'A' + 10)
    else none

pair_value : Option ℕ → Option ℕ → Option Bytes → Option Bytes
pair_value (some h) (some l) (some bs) = some ((h * 16 + l) ∷ bs)
pair_value _ _ _ = none

-- `none` is the error of a wrong digit or an odd length.
unfoldable pub decode_hex : Bytes → Option Bytes
unfolding hex_value pair_value
decode_hex [] = some []
decode_hex (c ∷ []) = none
decode_hex (c ∷ d ∷ cs) = pair_value (hex_value c) (hex_value d) (decode_hex cs)

hex_value-hex_digit : (d : ℕ) → d < 16 → hex_value (hex_digit d) ≡ some d
unfolding hex_value hex_digit
hex_value-hex_digit d h = ground arith

-- What was encoded is decoded.
pub decode_hex-encode_hex : (bs : Bytes) → IsBytes bs → decode_hex (encode_hex bs) ≡ some bs
unfolding decode_hex encode_hex
decode_hex-encode_hex [] h = refl
decode_hex-encode_hex (b ∷ bs) (hb, hbs) = ground (
  arith,
  hex_value-hex_digit (b / 16),
  hex_value-hex_digit (b % 16),
  decode_hex-encode_hex bs hbs,
)

hex_value_lt : (c v : ℕ) → hex_value c ≡ some v → v < 16
unfolding hex_value
hex_value_lt c v e = ground (arith, e)

-- What is decoded are bytes.
pub decode_hex-IsBytes : (cs bs : Bytes) → decode_hex cs ≡ some bs → IsBytes bs
unfolding decode_hex pair_value
decode_hex-IsBytes [] bs e = let p : bs ≡ [] = ground (arith, e) in rw p tt
decode_hex-IsBytes (c ∷ []) bs e = absurd (ground (arith, e))
decode_hex-IsBytes (c ∷ d ∷ cs) bs e = elim (Option-cases (hex_value c)) [
  | inl f ↦ absurd (ground (arith, e, f))
  | inr (h, f) ↦ elim (Option-cases (hex_value d)) [
    | inl g ↦ absurd (ground (arith, e, f, g))
    | inr (l, g) ↦ elim (Option-cases (decode_hex cs)) [
      | inl k ↦ absurd (ground (arith, e, f, g, k))
      | inr (rest, k) ↦
          let p : bs ≡ (h * 16 + l) ∷ rest = ground (arith, e, f, g, k) in
          rw p (omega (arith, hex_value_lt c h f, hex_value_lt d l g), decode_hex-IsBytes cs rest k)
    ]
  ]
]
