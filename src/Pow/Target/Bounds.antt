-- ===== src/Pow/Target/Bounds.antt =====
-- A hash meets a difficulty exactly where its value times the difficulty is below 2 ^ 256.
use xelis_pool.Common.{
  ℕ, zero, suc, ◌+◌, ◌-◌, ◌*◌, ◌/◌, ◌^◌, ◌≤◌, ◌<◌, ◌≡◌, ◌∙◌, ◌↔◌, refl, sym, ap, true, [], ◌∷◌,
  ◌++◌, length, All-append, replicate, length-replicate, take_all, arith,
}
use mathlib.Core.Path.{subst}
use native.Mathlib.Nat.{div-le_self, le-div_iff_mul-le}
use xelis_pool.Common.Bytes.{
  Bytes, IsByte, IsBytes, IsU64, be_bytes, be_value, be_value_from, be_value-be_bytes,
  be_value_from_bounds,
}
use xelis_pool.Pow.BlockMiner.Slices.{length-set_from, set_from-cons, take-set_from}
use xelis_pool.Pow.BlockMiner.{set_from}
use xelis_pool.Common.Big.{big_bytes, big_bytes-value, length-big_bytes, big_bytes-IsBytes}
use xelis_pool.Pow.Target.{max_big_int, get_target, get_target_bytes, lex_le, check_diff}

-- The copy into the zeroed array leaves zeros in front.
set_from-zeros :
    (k : ℕ) (xs : Bytes) → set_from k xs (replicate (k + length xs) 0) ≡ replicate k 0 ++ xs
set_from-zeros zero xs =
    let room : length (replicate (0 + length xs) 0) ≡ length xs =
      length-replicate (0 + length xs) 0 ∙ omega arith in
    sym (
      take_all (set_from 0 xs (replicate (0 + length xs) 0)) (length xs)
        (length-set_from 0 xs _ ∙ room))
    ∙ take-set_from xs _ (omega (arith, room))
set_from-zeros (suc k) xs =
    ap (λ n. set_from (suc k) xs (replicate n 0)) (next (length xs))
    ∙ set_from-cons k xs 0 (replicate (k + length xs) 0)
    ∙ ap (λ l. 0 ∷ l) (set_from-zeros k xs)
  where
    next : (n : ℕ) → suc k + n ≡ suc (k + n)
    next n = omega arith

zeros-value : (k : ℕ) (xs : Bytes) → be_value_from 0 (replicate k 0 ++ xs) ≡ be_value_from 0 xs
zeros-value zero xs = refl
zeros-value (suc k) xs = zeros-value k xs

apart : (a c P Q u v : ℕ) → P ≡ Q → a < c → u < (a + 1) * P → c * Q ≤ v → u < v
apart a c P Q u v e h lo hi =
    let scaled : (a + 1) * P ≤ c * P = grind arith in
    let same : c * P ≡ c * Q = ap (λ (t : ℕ). c * t) e in omega arith

-- A smaller first byte makes a smaller value.
ordered :
    (acc x y : ℕ) (xs ys : Bytes)
    → length xs ≡ length ys
    → IsBytes xs
    → IsBytes ys
    → x < y
    → be_value_from (acc * 256 + x) xs < be_value_from (acc * 256 + y) ys
ordered acc x y xs ys e hx hy h =
    let below = (be_value_from_bounds (acc * 256 + x) xs hx).1 in
    let above = (be_value_from_bounds (acc * 256 + y) ys hy).0 in
    let same : 256 ^ length xs ≡ 256 ^ length ys = ap (λ n. 256 ^ n) e in
    apart (acc * 256 + x) (acc * 256 + y) (256 ^ length xs) (256 ^ length ys) _ _ same (omega arith)
      below above

-- The comparison of byte strings of one length is that of the values.
lex_le_iff :
    (acc : ℕ) (xs ys : Bytes)
    → length xs ≡ length ys
    → IsBytes xs
    → IsBytes ys
    → (lex_le xs ys ≡ true) ↔ (be_value_from acc xs ≤ be_value_from acc ys)
unfolding lex_le
lex_le_iff acc [] [] e hx hy = ground arith
lex_le_iff acc [] (y ∷ ys) e hx hy = absurd (omega arith)
lex_le_iff acc (x ∷ xs) [] e hx hy = absurd (omega arith)
lex_le_iff acc (x ∷ xs) (y ∷ ys) e (hx, hxs) (hy, hys) = ground (
  arith,
  lex_le_iff (acc * 256 + x) xs ys (omega arith) hxs hys,
  ordered acc x y xs ys (omega arith) hxs hys,
  ordered acc y x ys xs (omega arith) hys hxs,
  cong x y,
)
  where
    cong : (a c : ℕ) → a ≡ c → be_value_from (acc * 256 + a) ys ≡ be_value_from (acc * 256 + c) ys
    cong a c h = ap (λ n. be_value_from (acc * 256 + n) ys) h

zeros-IsBytes : (k : ℕ) → IsBytes (replicate k 0)
zeros-IsBytes zero = tt
zeros-IsBytes (suc k) = (omega arith, zeros-IsBytes k)

padded :
    (byt : Bytes)
    → length byt ≤ 32
    → set_from (32 - length byt) byt (replicate 32 0) ≡ replicate (32 - length byt) 0 ++ byt
padded byt h =
    let k = 32 - length byt in
    ap (λ n. set_from k byt (replicate n 0)) (room (length byt) h) ∙ set_from-zeros k byt
  where
    room : (n : ℕ) → n ≤ 32 → 32 ≡ 32 - n + n
    room n q = omega arith

get_target-lt : (diff : ℕ) → get_target diff < 256 ^ 32
unfolding get_target
get_target-lt diff = ground (arith, div-le_self max_big_int (be_value (be_bytes 8 diff)))

get_target_bytes_lem :
    (diff : ℕ)
    → (length (get_target_bytes diff) ≡ 32)
      × IsBytes (get_target_bytes diff)
      × (be_value (get_target_bytes diff) ≡ get_target diff)
unfolding get_target_bytes be_value
get_target_bytes_lem diff =
    let byt = big_bytes (get_target diff) in
    let k = 32 - length byt in
    let short : length byt ≤ 32 = length-big_bytes (get_target diff) (get_target-lt diff) in
    let e = padded byt short in
    (
      length-set_from k byt (replicate 32 0),
      subst IsBytes (sym e) (
          All-append IsByte (replicate k 0) byt (zeros-IsBytes k)
            (big_bytes-IsBytes (get_target diff))),
      ap (be_value_from 0) e ∙ zeros-value k byt ∙ big_bytes-value (get_target diff),
    )

get_target-value : (diff : ℕ) → 0 < diff → IsU64 diff → get_target diff ≡ max_big_int / diff
unfolding get_target
get_target-value diff pos fits = ground (arith, be_value-be_bytes 8 diff fits)

-- For a difficulty that is a positive uint64 and a hash of 32 bytes, the hash passes exactly where
-- its big-endian value times the difficulty is at most 2 ^ 256 - 1.
pub check_diff_iff :
    (hash : Bytes) (diff : ℕ)
    → length hash ≡ 32
    → IsBytes hash
    → 0 < diff
    → IsU64 diff
    → (check_diff hash diff ≡ true) ↔ (be_value hash * diff ≤ 2 ^ 256 - 1)
unfolding check_diff
check_diff_iff hash diff e h pos fits =
    let (size, bytes, value) = get_target_bytes_lem diff in
    let (to, from) = lex_le_iff 0 hash (get_target_bytes diff) (e ∙ sym size) h bytes in
    let target : be_value (get_target_bytes diff) ≡ max_big_int / diff =
      value ∙ get_target-value diff pos fits in
    let (scaled, unscaled) =
      le-div_iff_mul-le {k = diff} {x = be_value hash} {y = max_big_int} pos in
    (
      λ ok. scaled (subst (λ t. be_value hash ≤ t) target (unfold be_value in to ok)),
      λ le. from (unfold be_value in subst (λ t. be_value hash ≤ t) (sym target) (unscaled le)),
    )

-- A hash of 32 bytes that meets a uint64 difficulty meets every smaller positive one: a share that
-- finds a block passes the test of its own difficulty, where that is not above that of the chain.
pub check_diff_mono :
    (hash : Bytes) (diff chain_diff : ℕ)
    → length hash ≡ 32
    → IsBytes hash
    → 0 < diff
    → diff ≤ chain_diff
    → IsU64 chain_diff
    → check_diff hash chain_diff ≡ true
    → check_diff hash diff ≡ true
check_diff_mono hash diff chain_diff e h pos le fits ok =
    let whole = (check_diff_iff hash chain_diff e h (omega arith) fits).0 ok in
    let part : be_value hash * diff ≤ be_value hash * chain_diff = grind arith in
    (check_diff_iff hash diff e h pos (omega arith)).1 (omega arith)
