-- ===== src/Common/Newest.antt =====
-- The last entries of a list.
use Prim.Native.Nat.{ℕ, zero, suc, ◌+◌, ◌-◌, ◌≤◌}
use mathlib.Core.Path.{◌≡◌, refl, sym, ap, ◌∙◌}
use mathlib.Core.List.{List, [], ◌∷◌, ◌++◌}
use native.Mathlib.Omega.{arith}
use xelis_pool.Common.Lists.{length, drop, length-append, length-drop, drop-drop}

-- The last `n` of a list.
abbrev pub newest {ℓ} : {A : Type ℓ} → ℕ → List A → List A
newest n xs = drop (length xs - n) xs

pub drop_zero {ℓ} : {A : Type ℓ} (n : ℕ) (xs : List A) → n ≡ 0 → drop n xs ≡ xs
drop_zero zero xs e = refl
drop_zero (suc n) xs e = absurd (omega arith)

pub drop-append_le {ℓ} :
    {A : Type ℓ} (n : ℕ) (xs ys : List A) → n ≤ length xs → drop n (xs ++ ys) ≡ drop n xs ++ ys
drop-append_le zero xs ys h = refl
drop-append_le (suc n) [] ys h = absurd (omega arith)
drop-append_le (suc n) (x ∷ xs) ys h = drop-append_le n xs ys (omega arith)

-- What is not among the newest now is not among them after one more.
pub newest-push {ℓ} :
    {A : Type ℓ} (n : ℕ) (seen : List A) (x : A)
    → newest n (newest n seen ++ (x ∷ [])) ≡ newest n (seen ++ (x ∷ []))
newest-push n seen x =
    let one = x ∷ [] in
    let old = length seen - n in
    let all : newest n seen ++ one ≡ drop old (seen ++ one) =
      sym (drop-append_le old seen one (omega arith)) in
    let whole : length (seen ++ one) ≡ length seen + 1 = length-append seen one in
    let size : length (newest n seen ++ one) ≡ length seen - old + 1 =
      omega (arith, length-append (newest n seen) one, length-drop old seen) in
    ap (drop (length (newest n seen ++ one) - n)) all
    ∙ sym (drop-drop (length (newest n seen ++ one) - n) old (seen ++ one))
    ∙ ap (λ i. drop i (seen ++ one)) (omega (arith, size, whole))
