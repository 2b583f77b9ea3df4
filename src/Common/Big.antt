-- ===== src/Common/Big.antt =====
-- The bytes of a natural number of any size, which pow/ and serializer/ take from math/big.
use xelis_pool.Common.{
  ℕ, zero, suc, ◌+◌, ◌/◌, ◌%◌, ◌^◌, ◌≤◌, ◌<◌, ◌≡◌, ◌∙◌, refl, ap, [], ◌∷◌, length, arith,
}
use xelis_pool.Common.Bytes.{Bytes, IsBytes, be_value, be_value_from}

-- math/big's `Bytes`: big endian with no zero in front. The value falls in each round, so as many
-- rounds as the value are enough.
unfoldable pub big_bytes_loop : ℕ → ℕ → Bytes → Bytes
big_bytes_loop zero v acc = acc
big_bytes_loop (suc fuel) zero acc = acc
big_bytes_loop (suc fuel) (suc v) acc = big_bytes_loop fuel (suc v / 256) (suc v % 256 ∷ acc)

unfoldable pub big_bytes : ℕ → Bytes
unfolding big_bytes_loop
big_bytes v = big_bytes_loop v v []

big_bytes_loop-value :
    (fuel v : ℕ) (acc : Bytes)
    → v ≤ fuel
    → be_value_from 0 (big_bytes_loop fuel v acc) ≡ be_value_from v acc
unfolding big_bytes_loop
big_bytes_loop-value zero v acc h = ap (λ n. be_value_from n acc) (omega arith)
big_bytes_loop-value (suc fuel) zero acc h = refl
big_bytes_loop-value (suc fuel) (suc v) acc h =
    big_bytes_loop-value fuel (suc v / 256) (suc v % 256 ∷ acc) (omega arith)
    ∙ ap (λ n. be_value_from n acc) (omega arith)

pub big_bytes-value : (v : ℕ) → be_value (big_bytes v) ≡ v
unfolding big_bytes be_value
big_bytes-value v = big_bytes_loop-value v v [] (omega arith)

length-big_bytes_loop :
    (fuel v k : ℕ) (acc : Bytes) → v < 256 ^ k → length (big_bytes_loop fuel v acc) ≤ k + length acc
unfolding big_bytes_loop
length-big_bytes_loop zero v k acc h = omega arith
length-big_bytes_loop (suc fuel) zero k acc h = omega arith
length-big_bytes_loop (suc fuel) (suc v) zero acc h = absurd (omega arith)
length-big_bytes_loop (suc fuel) (suc v) (suc k) acc h =
    omega (arith, length-big_bytes_loop fuel (suc v / 256) k (suc v % 256 ∷ acc) (omega arith))

big_bytes_loop-IsBytes :
    (fuel v : ℕ) (acc : Bytes) → IsBytes acc → IsBytes (big_bytes_loop fuel v acc)
unfolding big_bytes_loop
big_bytes_loop-IsBytes zero v acc h = h
big_bytes_loop-IsBytes (suc fuel) zero acc h = h
big_bytes_loop-IsBytes (suc fuel) (suc v) acc h =
    big_bytes_loop-IsBytes fuel (suc v / 256) (suc v % 256 ∷ acc) (omega arith, h)

pub length-big_bytes : (v : ℕ) → v < 256 ^ 32 → length (big_bytes v) ≤ 32
unfolding big_bytes
length-big_bytes v h = length-big_bytes_loop v v 32 [] h

pub big_bytes-IsBytes : (v : ℕ) → IsBytes (big_bytes v)
unfolding big_bytes
big_bytes-IsBytes v = big_bytes_loop-IsBytes v v [] tt
