-- ===== src/Serializer/Uvarint/Laws.antt =====
-- A uint64 is read back from its groups; what is read is a uint64 within the buffer.
use mathlib.Core.Path.{subst}
use native.Mathlib.Nat.{div-add-mod}
use native.Mathlib.Numerals.{towards_suc}
use xelis_pool.Common.{
  ℕ, zero, suc, ◌+◌, ◌*◌, ◌/◌, ◌%◌, ◌^◌, ◌≤◌, ◌<◌, ◌≡◌, ap, [], ◌∷◌, ◌++◌, length, arith,
}
use xelis_pool.Common.Bytes.{Bytes, IsBytes, IsU64}
use xelis_pool.Serializer.Uvarint.{groups, read, add_group, uvarint_loop, uvarint}

pub length-groups : (k x : ℕ) → (1 ≤ length (groups k x)) × (length (groups k x) ≤ k + 1)
unfolding groups
length-groups zero x = (omega arith, omega arith)
length-groups (suc k) x = ground (arith, length-groups k (x / 128))

pub groups-IsBytes : (k x : ℕ) → IsBytes (groups k x)
unfolding groups
groups-IsBytes zero x = omega arith
groups-IsBytes (suc k) x = ground (arith, groups-IsBytes k (x / 128))

split_group : (w s : ℕ) → w * 2 ^ s ≡ w % 128 * 2 ^ s + w / 128 * 2 ^ (s + 7)
split_group w s =
    let shifted : 2 ^ (s + 7) ≡ 128 * 2 ^ s = simp towards_suc (omega arith) in
    omega
      (arith, ap (λ (t : ℕ). t * 2 ^ s) (div-add-mod w 128), ap (λ (t : ℕ). w / 128 * t) shifted)

-- One round on a last byte, and on a byte that says that more follow.
last_round :
    (w i x s : ℕ) (rest : Bytes)
    → w < 128
    → i ≤ 9
    → (i ≡ 9 → w ≤ 1)
    → IsU64 (x + w * 2 ^ s)
    → uvarint_loop (w ∷ rest) i x s ≡ read (x + w * 2 ^ s) (i + 1)
unfolding uvarint_loop
last_round w i x s rest hw hi one fits = ground arith

inner_round :
    (g i x s : ℕ) (rest : Bytes)
    → g < 128
    → i ≤ 9
    → IsU64 (x + g * 2 ^ s)
    → uvarint_loop ((g + 128) ∷ rest) i x s ≡ uvarint_loop rest (i + 1) (x + g * 2 ^ s) (s + 7)
unfolding uvarint_loop
inner_round g i x s rest hg hi fits = ground arith

top_bit : (w x : ℕ) → IsU64 (x + w * 2 ^ 63) → w ≤ 1
top_bit w x h = omega arith

uvarint_loop-groups :
    (k w i x s : ℕ) (rest : Bytes)
    → w < 128 ^ suc k
    → i + k ≡ 9
    → s ≡ 7 * i
    → IsU64 (x + w * 2 ^ s)
    → uvarint_loop (groups k w ++ rest) i x s ≡ read (x + w * 2 ^ s) (i + length (groups k w))
unfolding groups
uvarint_loop-groups zero w i x s rest hw hi hs fits =
    let at_top : s ≡ 63 = omega arith in
    let one : w ≤ 1 = top_bit w x (subst (λ t. IsU64 (x + w * 2 ^ t)) at_top fits) in
    let same : w % 256 ≡ w = omega arith in
    rw same (last_round w i x s rest (omega arith) (omega arith) (λ _. one) fits)
uvarint_loop-groups (suc k) w i x s rest hw hi hs fits = ground (
  arith,
  last_round w i x s rest,
  split_group w s,
  inner_round (w % 128) i x s (groups k (w / 128) ++ rest),
  uvarint_loop-groups k (w / 128) (i + 1) (x + w % 128 * 2 ^ s) (s + 7) rest,
)

-- A uint64 is read back from its encoding, whatever follows it.
pub uvarint-groups :
    (v : ℕ) (rest : Bytes) → IsU64 v → uvarint (groups 9 v ++ rest) ≡ read v (length (groups 9 v))
unfolding uvarint
uvarint-groups v rest h = ground (arith, uvarint_loop-groups 9 v 0 0 0 rest)

uvarint_loop_bounds :
    (bs : Bytes) (i x s : ℕ) {v n : ℕ}
    → uvarint_loop bs i x s ≡ read v n
    → IsU64 v × (i < n) × (n ≤ i + length bs)
unfolding uvarint_loop
uvarint_loop_bounds [] i x s e = cc
uvarint_loop_bounds (b ∷ bs) i x s {v} {n} e =
    ground (arith, uvarint_loop_bounds bs (i + 1) (add_group x b s) (s + 7) {v = v} {n = n})

-- What is read is a uint64, from one byte at least and within the buffer.
pub uvarint_bounds :
    (bs : Bytes) {v n : ℕ} → uvarint bs ≡ read v n → IsU64 v × (0 < n) × (n ≤ length bs)
unfolding uvarint
uvarint_bounds bs e = omega (arith, uvarint_loop_bounds bs 0 0 0 e)
