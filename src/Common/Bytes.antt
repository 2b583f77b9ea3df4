-- ===== src/Common/Bytes.antt =====
-- Byte sequences, which are also the program's strings, and fixed-width integers in either order.
use Prim.Native.Char.{code}
use Prim.Native.String.{String}
use Prim.Native.Nat.{ℕ, zero, suc, ◌+◌, ◌*◌, ◌/◌, ◌%◌, ◌^◌, ◌≤◌, ◌<◌}
use mathlib.Core.Path.{◌≡◌, refl, ap, ◌∙◌}
use mathlib.Core.Logic.{◌↔◌}
use mathlib.Core.Bool.{Bool, true, false, ◌&&◌}
use mathlib.Core.List.{List, [], ◌∷◌, ◌++◌}
use native.Mathlib.Omega.{arith}
use native.Mathlib.Nat.{pow-succ'}
use xelis_pool.Common.Tests.{◌==◌}
use xelis_pool.Common.Lists.{length, length-append, All, All-append}

abbrev pub Bytes : Type 0
Bytes = List ℕ

abbrev pub IsByte : ℕ → Type 0
IsByte b = b < 256

abbrev pub IsBytes : Bytes → Type 0
IsBytes = All IsByte

abbrev pub IsU64 : ℕ → Type 0
IsU64 v = v < 2 ^ 64

-- The bytes of a text literal in ASCII.
abbrev pub codes : String → Bytes
codes String.[] = []
codes (String.◌∷◌ c s) = code c ∷ codes s

infix 50 ◌=?◌
unfoldable pub ◌=?◌ : Bytes → Bytes → Bool
[] =? [] = true
[] =? (y ∷ ys) = false
(x ∷ xs) =? [] = false
(x ∷ xs) =? (y ∷ ys) = x == y && xs =? ys

pub =?_iff : (xs ys : Bytes) → ((xs =? ys) ≡ true) ↔ (xs ≡ ys)
unfolding ◌=?◌
=?_iff [] [] = ground arith
=?_iff [] (y ∷ ys) = ground arith
=?_iff (x ∷ xs) [] = ground arith
=?_iff (x ∷ xs) (y ∷ ys) = ground (arith, =?_iff xs ys)

pub =?_refl : (xs : Bytes) → (xs =? xs) ≡ true
=?_refl xs = (=?_iff xs xs).1 refl

-- `v` in `k` bytes, the lowest first, and back.
unfoldable pub le_bytes : ℕ → ℕ → Bytes
le_bytes zero v = []
le_bytes (suc k) v = v % 256 ∷ le_bytes k (v / 256)

unfoldable pub le_value : Bytes → ℕ
le_value [] = 0
le_value (b ∷ bs) = b + 256 * le_value bs

pub length-le_bytes : (k v : ℕ) → length (le_bytes k v) ≡ k
unfolding le_bytes
length-le_bytes zero v = refl
length-le_bytes (suc k) v = ap suc (length-le_bytes k (v / 256))

pub le_bytes-IsBytes : (k v : ℕ) → IsBytes (le_bytes k v)
unfolding le_bytes
le_bytes-IsBytes zero v = tt
le_bytes-IsBytes (suc k) v = (omega arith, le_bytes-IsBytes k (v / 256))

pub le_value-le_bytes : (k v : ℕ) → v < 256 ^ k → le_value (le_bytes k v) ≡ v
unfolding le_bytes le_value
le_value-le_bytes zero v h = omega arith
le_value-le_bytes (suc k) v h = omega (arith, le_value-le_bytes k (v / 256) (omega arith))

-- The highest byte first.
unfoldable pub be_bytes : ℕ → ℕ → Bytes
be_bytes zero v = []
be_bytes (suc k) v = be_bytes k (v / 256) ++ (v % 256 ∷ [])

abbrev pub be_value_from : ℕ → Bytes → ℕ
be_value_from acc [] = acc
be_value_from acc (b ∷ bs) = be_value_from (acc * 256 + b) bs

unfoldable pub be_value : Bytes → ℕ
be_value bs = be_value_from 0 bs

pub length-be_bytes : (k v : ℕ) → length (be_bytes k v) ≡ k
unfolding be_bytes
length-be_bytes zero v = refl
length-be_bytes (suc k) v =
    omega (arith, length-append (be_bytes k (v / 256)) (v % 256 ∷ []), length-be_bytes k (v / 256))

pub be_bytes-IsBytes : (k v : ℕ) → IsBytes (be_bytes k v)
unfolding be_bytes
be_bytes-IsBytes zero v = tt
be_bytes-IsBytes (suc k) v =
    All-append IsByte (be_bytes k (v / 256)) _ (be_bytes-IsBytes k (v / 256)) (omega arith, tt)

be_value_from-append :
    (acc : ℕ) (xs : Bytes) (b : ℕ)
    → be_value_from acc (xs ++ (b ∷ [])) ≡ be_value_from acc xs * 256 + b
be_value_from-append acc [] b = refl
be_value_from-append acc (x ∷ xs) b = be_value_from-append (acc * 256 + x) xs b

pub be_value-be_bytes : (k v : ℕ) → v < 256 ^ k → be_value (be_bytes k v) ≡ v
unfolding be_bytes be_value
be_value-be_bytes zero v h = omega arith
be_value-be_bytes (suc k) v h =
    be_value_from-append 0 (be_bytes k (v / 256)) (v % 256)
    ∙ omega (arith, be_value-be_bytes k (v / 256) (omega arith))

window :
    (a x P Q v : ℕ)
    → Q ≡ 256 * P
    → x < 256
    → (a * 256 + x) * P ≤ v
    → v < (a * 256 + x + 1) * P
    → (a * Q ≤ v) × (v < (a + 1) * Q)
window a x P Q v e h lo hi =
    let below : suc x * P ≤ 256 * P = grind arith in
    let apart : a * Q ≡ a * (256 * P) = ap (λ (t : ℕ). a * t) e in (omega arith, omega arith)

-- The value lies in the window that the accumulator and the number of bytes give.
pub be_value_from_bounds :
    (acc : ℕ) (xs : Bytes)
    → IsBytes xs
    → (acc * 256 ^ length xs ≤ be_value_from acc xs)
      × (be_value_from acc xs < (acc + 1) * 256 ^ length xs)
be_value_from_bounds acc [] h = (omega arith, omega arith)
be_value_from_bounds acc (x ∷ xs) h =
    let (lo, hi) = be_value_from_bounds (acc * 256 + x) xs h.1 in
    window acc x (256 ^ length xs) (256 ^ length (x ∷ xs)) _ (pow-succ' 256 (length xs)) h.0 lo hi
