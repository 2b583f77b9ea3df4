-- ===== src/RateLimit/Bans.antt =====
-- A ban lasts: until it ends no action of the IP is allowed, whatever happens in between.
use xelis_pool.Common.{ℕ, ◌+◌, ◌≤◌, ◌<◌, ◌≡◌, refl, false, List, [], ◌∷◌, All, arith}
use xelis_pool.Common.Bytes.{Bytes, =?_refl}
use xelis_pool.Common.Assoc.{Assoc, lookup_or, lookup_or-insert}
use xelis_pool.RateLimit.{
  Limiter, ban_ends, ban_duration, max_score, raised, ban, can_do_action, current, clear_rl,
}

-- The calls of the package, with the time of each.
pub data Event : Type 0 where
  act : Bytes → ℕ → ℕ → Event
  ban_until : Bytes → ℕ → ℕ → Event
  clear : ℕ → Event

abbrev pub time_of : Event → ℕ
time_of (act ip required now) = now
time_of (ban_until ip ends now) = now
time_of (clear now) = now

unfoldable pub step : Limiter → Event → Limiter
step s (act ip required now) = (can_do_action ip required now s).0
step s (ban_until ip ends now) = ban ip ends now s
step s (clear now) = clear_rl now s

unfoldable pub run : Limiter → List Event → Limiter
unfolding step
run s [] = s
run s (e ∷ es) = run (step s e) es

-- `clearRl` keeps a ban that is not over.
current-keeps :
    (now : ℕ) (ip : Bytes) (m : Assoc ℕ)
    → now < lookup_or 0 ip m
    → lookup_or 0 ip (current now m) ≡ lookup_or 0 ip m
unfolding current lookup_or
current-keeps now ip [] h = refl
current-keeps now ip ((j, ends) ∷ m) h = ground (arith, current-keeps now ip m)

-- Inside the duration of a ban given at `t`, no call shortens it.
module _ (ip : Bytes) (t : ℕ) where
  abbrev IsDuring : Event → Type 0
  IsDuring e = (t ≤ time_of e) × (time_of e < t + ban_duration)

  step_keeps :
      (s : Limiter) (e : Event)
      → IsDuring e
      → t + ban_duration ≤ ban_ends ip s
      → t + ban_duration ≤ ban_ends ip (step s e)
  unfolding step can_do_action ban clear_rl
  step_keeps s (act j required now) (lo, hi) h =
      ground (arith, lookup_or-insert 0 j ip (now + ban_duration) s.bans)
  step_keeps s (ban_until j ends now) (lo, hi) h =
      ground (arith, lookup_or-insert 0 j ip (now + ban_duration) s.bans)
  step_keeps s (clear now) (lo, hi) h = ground (arith, current-keeps now ip s.bans)

  run_keeps :
      (es : List Event) (s : Limiter)
      → All IsDuring es
      → t + ban_duration ≤ ban_ends ip s
      → t + ban_duration ≤ ban_ends ip (run s es)
  unfolding run
  run_keeps [] s during h = h
  run_keeps (e ∷ es) s (d, ds) h = run_keeps es (step s e) ds (step_keeps s e d h)

refused_while_banned :
    (ip : Bytes) (required now : ℕ) (s : Limiter)
    → now < ban_ends ip s
    → (can_do_action ip required now s).1 ≡ false
unfolding can_do_action
refused_while_banned ip required now s h = ground arith

starts :
    (ip : Bytes) (s : Limiter) (required t : ℕ)
    → ban_ends ip s ≤ t
    → max_score < raised ip required s
    → t + ban_duration ≤ ban_ends ip (can_do_action ip required t s).0
unfolding can_do_action
starts ip s required t free over =
    ground (arith, =?_refl ip, lookup_or-insert 0 ip ip (t + ban_duration) s.bans)

-- An action of an IP with no ban, refused for its score, bans the IP: in the `ban_duration`
-- seconds after it every action of the IP is refused, whatever actions, bans and clean-ups happen
-- in between.
pub score_ban_lasts :
    (ip : Bytes) (s : Limiter) (required t : ℕ) (es : List Event) (later now : ℕ)
    → ban_ends ip s ≤ t
    → max_score < raised ip required s
    → All (λ e. (t ≤ time_of e) × (time_of e < t + ban_duration)) es
    → now < t + ban_duration
    → (can_do_action ip later now (run (can_do_action ip required t s).0 es)).1 ≡ false
score_ban_lasts ip s required t es later now free over during soon =
    refused (run (can_do_action ip required t s).0 es)
      (run_keeps ip t es (can_do_action ip required t s).0 during banned)
  where
    banned : t + ban_duration ≤ ban_ends ip (can_do_action ip required t s).0
    banned = starts ip s required t free over

    refused :
        (s' : Limiter)
        → t + ban_duration ≤ ban_ends ip s'
        → (can_do_action ip later now s').1 ≡ false
    refused s' h = refused_while_banned ip later now s' (omega arith)
