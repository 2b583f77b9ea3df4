-- ===== src/Master/Updater/Attempts.antt =====
-- How often the loop of `Updater` calls Withdraw.
use xelis_pool.Common.{
  if-true, if-false, ℕ, zero, suc, ◌≤◌, ◌<◌, ◌≡◌, ◌∙◌, refl, ◌⊎◌, ap, Bool, true, false, Bool-cases,
  inl, inr, arith,
}
use xelis_pool.Master.Updater.{withdraw_loop}

-- How often a step was taken.
unfoldable pub steps {ℓ} : {S : Type ℓ} → (S → S × Bool) → ℕ → S → S
steps f zero s = s
steps f (suc n) s = steps f n (f s).0

steps-before {ℓ} :
    {S : Type ℓ} (f : S → S × Bool) (s : S) (k : ℕ)
    → (f s).1 ≡ true
    → ((i : ℕ) → i < k → (f (steps f i (f s).0)).1 ≡ true)
    → (i : ℕ) → i < suc k
    → (f (steps f i s)).1 ≡ true
unfolding steps
steps-before f s k first rest zero h = first
steps-before f s k first rest (suc i) h = rest i (omega (arith, h))

-- The withdrawal loop with at most n + 1 calls makes k + 1 calls of Withdraw, one after the other, for a k that is at
-- most n: each of the first k leaves someone unpaid, and the last one leaves nobody unpaid unless all n + 1 calls
-- were made.
pub withdraw_loop_lem {ℓ} :
    {S : Type ℓ} (withdraw : S → S × Bool) (n : ℕ) (s : S)
    → (k : ℕ) × (k ≤ n)
      × (withdraw_loop withdraw (suc n) s ≡ steps withdraw (suc k) s)
      × ((i : ℕ) → i < k → (withdraw (steps withdraw i s)).1 ≡ true)
      × ((k ≡ n) ⊎ ((withdraw (steps withdraw k s)).1 ≡ false))
unfolding withdraw_loop steps
withdraw_loop_lem withdraw zero s = elim (Bool-cases (withdraw s).1) [
  | inl unpaid ↦ (0, omega arith, if-true _ _ unpaid, λ i h. absurd (omega (arith, h)), inl refl)
  | inr paid ↦ (0, omega arith, if-false _ _ paid, λ i h. absurd (omega (arith, h)), inl refl)
]
withdraw_loop_lem withdraw (suc n) s = elim (Bool-cases (withdraw s).1) [
  | inl unpaid ↦
      let (k, le, same, earlier, last) = withdraw_loop_lem withdraw n (withdraw s).0 in
      (
        suc k,
        omega (arith, le),
        if-true _ _ unpaid ∙ same,
        steps-before withdraw s k unpaid earlier,
        elim last [ inl all ↦ inl (ap suc all) | inr paid ↦ inr paid ],
      )
  | inr paid ↦ (0, omega arith, if-false _ _ paid, λ i h. absurd (omega (arith, h)), inr paid)
]
