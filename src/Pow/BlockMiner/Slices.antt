-- ===== src/Pow/BlockMiner/Slices.antt =====
-- A write into a list of bytes, seen through slices: its own slice has what was written, and a
-- slice beside it is as before.
use xelis_pool.Common.{
  ℕ, zero, suc, ◌+◌, ◌≤◌, ◌<◌, ◌≡◌, ◌∙◌, refl, ap, ◌⊎◌, inl, inr, [], ◌∷◌, length-drop, length, set,
  take, drop, length-set, arith,
}
use mathlib.Core.Path.{subst}
use xelis_pool.Common.Bytes.{Bytes}
use xelis_pool.Pow.BlockMiner.{set_from}

pub length-set_from : (i : ℕ) (xs b : Bytes) → length (set_from i xs b) ≡ length b
unfolding set_from
length-set_from i [] b = refl
length-set_from i (x ∷ xs) b = length-set_from (suc i) xs (set b i x) ∙ length-set b i x

set_from-nil : (i : ℕ) (xs : Bytes) → set_from i xs [] ≡ []
unfolding set_from
set_from-nil i [] = refl
set_from-nil i (x ∷ xs) = set_from-nil (suc i) xs

pub set_from-cons :
    (i : ℕ) (xs : Bytes) (c : ℕ) (b : Bytes) → set_from (suc i) xs (c ∷ b) ≡ c ∷ set_from i xs b
unfolding set_from
set_from-cons i [] c b = refl
set_from-cons i (x ∷ xs) c b = set_from-cons (suc i) xs c (set b i x)

drop-set_from : (i : ℕ) (xs b : Bytes) → drop i (set_from i xs b) ≡ set_from 0 xs (drop i b)
drop-set_from zero xs b = refl
drop-set_from (suc i) xs [] = rw (set_from-nil (suc i) xs, set_from-nil 0 xs)
drop-set_from (suc i) xs (c ∷ b) = rw (set_from-cons i xs c b) (drop-set_from i xs b)

pub take-set_from : (xs b : Bytes) → length xs ≤ length b → take (length xs) (set_from 0 xs b) ≡ xs
unfolding set_from
take-set_from [] b h = refl
take-set_from (x ∷ xs) [] h = absurd (omega arith)
take-set_from (x ∷ xs) (c ∷ b) h =
    rw (set_from-cons 0 xs x b) (ap (λ l. x ∷ l) (take-set_from xs b (omega arith)))

-- The slice that was written.
pub slice-set_from_self :
    (i n : ℕ) (xs b : Bytes)
    → length xs ≡ n
    → i + n ≤ length b
    → take n (drop i (set_from i xs b)) ≡ xs
slice-set_from_self i n xs b e h = rw (drop-set_from i xs b) (
    subst (λ k. take k (set_from 0 xs (drop i b)) ≡ xs) e
      (take-set_from xs (drop i b) (omega (arith, length-drop i b))))

drop-set_below : (lo i x : ℕ) (b : Bytes) → i < lo → drop lo (set b i x) ≡ drop lo b
drop-set_below zero i x b h = absurd (omega arith)
drop-set_below (suc lo) i x [] h = refl
drop-set_below (suc lo) zero x (c ∷ b) h = refl
drop-set_below (suc lo) (suc i) x (c ∷ b) h = drop-set_below lo i x b (omega arith)

slice-set_above :
    (lo n i x : ℕ) (b : Bytes) → lo + n ≤ i → take n (drop lo (set b i x)) ≡ take n (drop lo b)
slice-set_above lo n i x [] h = refl
slice-set_above lo zero i x (c ∷ b) h = refl
slice-set_above lo (suc n) zero x (c ∷ b) h = absurd (omega arith)
slice-set_above zero (suc n) (suc i) x (c ∷ b) h =
    ap (λ l. c ∷ l) (slice-set_above zero n i x b (omega arith))
slice-set_above (suc lo) (suc n) (suc i) x (c ∷ b) h =
    slice-set_above lo (suc n) i x b (omega arith)

slice-set_from_below :
    (lo n i : ℕ) (xs b : Bytes)
    → i + length xs ≤ lo
    → take n (drop lo (set_from i xs b)) ≡ take n (drop lo b)
unfolding set_from
slice-set_from_below lo n i [] b h = refl
slice-set_from_below lo n i (x ∷ xs) b h =
    slice-set_from_below lo n (suc i) xs (set b i x) (omega arith)
    ∙ ap (take n) (drop-set_below lo i x b (omega arith))

slice-set_from_above :
    (lo n i : ℕ) (xs b : Bytes)
    → lo + n ≤ i
    → take n (drop lo (set_from i xs b)) ≡ take n (drop lo b)
unfolding set_from
slice-set_from_above lo n i [] b h = refl
slice-set_from_above lo n i (x ∷ xs) b h =
    slice-set_from_above lo n (suc i) xs (set b i x) (omega arith) ∙ slice-set_above lo n i x b h

-- A slice that the write does not meet.
pub slice-set_from_ne :
    (lo n i : ℕ) (xs b : Bytes)
    → (i + length xs ≤ lo) ⊎ (lo + n ≤ i)
    → take n (drop lo (set_from i xs b)) ≡ take n (drop lo b)
slice-set_from_ne lo n i xs b (inl h) = slice-set_from_below lo n i xs b h
slice-set_from_ne lo n i xs b (inr h) = slice-set_from_above lo n i xs b h
