-- ===== src/RateLimit/Budget.antt =====
-- Between two clean-ups the allowed actions of an IP cost at most MAX_SCORE.
use xelis_pool.Common.{
  ℕ, ap, ◌-◌, ◌&&◌, ◌+◌, ◌^◌, ◌≤◌, ◌<◌, ◌≡◌, true, List, [], ◌∷◌, arith, if◌then◌else◌,
}
use xelis_pool.Common.Bytes.{Bytes, ◌=?◌, =?_iff}
use xelis_pool.Common.Assoc.{lookup_or-insert}
use xelis_pool.RateLimit.{Limiter, score_of, max_score, raised, can_do_action}

-- The actions of all IPs in order: the IP, the cost and the time.
pub record Action : Type 0 where
  pub ip : Bytes
  pub cost : ℕ
  pub now : ℕ

module _ (ip : Bytes) where
  -- The cost of the actions that `ip` asked for, and of those that it was allowed.
  unfoldable pub asked : List Action → ℕ
  asked [] = 0
  asked (a ∷ as') = (if a.ip =? ip then a.cost else 0) + asked as'

  unfoldable pub allowed : Limiter → List Action → ℕ
  allowed s [] = 0
  allowed s (a ∷ as') =
      (if a.ip =? ip && (can_do_action a.ip a.cost a.now s).1 then a.cost else 0)
      + allowed (can_do_action a.ip a.cost a.now s).0 as'

  score-can_do_action :
      (j : Bytes) (cost now : ℕ) (s : Limiter)
      → score_of ip (can_do_action j cost now s).0
        ≡ (if j =? ip then raised j cost s else score_of ip s)
  unfolding can_do_action
  score-can_do_action j cost now s =
      ground (arith, lookup_or-insert 0 j ip (raised j cost s) s.scores)

  allowed_within :
      (j : Bytes) (cost now : ℕ) (s : Limiter)
      → (can_do_action j cost now s).1 ≡ true
      → raised j cost s ≤ max_score
  unfolding can_do_action
  allowed_within j cost now s h = ground arith

  -- What can still be allowed is what the score leaves of the budget.
  allowed_from :
      (as' : List Action) (s : Limiter)
      → score_of ip s + asked as' < 2 ^ 32
      → allowed s as' ≤ max_score - score_of ip s
  unfolding asked allowed
  allowed_from [] s fits = omega arith
  allowed_from (a ∷ as') s fits = ground (
    arith,
    =?_iff a.ip ip,
    cong a.ip,
    score-can_do_action a.ip a.cost a.now s,
    allowed_within a.ip a.cost a.now s,
    allowed_from as' (can_do_action a.ip a.cost a.now s).0,
  )
    where
      cong : (j : Bytes) → j ≡ ip → score_of j s ≡ score_of ip s
      cong j e = ap (λ k. score_of k s) e

-- From a cleared score on, and as long as the asked costs stay below 2 ^ 32, the allowed actions of
-- an IP cost at most MAX_SCORE together, whatever the other IPs do.
pub allowed-le-max_score :
    (ip : Bytes) (s : Limiter) (as' : List Action)
    → score_of ip s ≡ 0
    → asked ip as' < 2 ^ 32
    → allowed ip s as' ≤ max_score
allowed-le-max_score ip s as' fresh fits = omega (arith, allowed_from ip as' s (omega arith))
