-- ===== src/RateLimit.antt =====
-- rate_limit/: the connections per IP, and the scores and bans of IPs. The mutexes make each
-- function one step. Times are in seconds.
pub mod Connections
pub mod Bans
pub mod Budget
use xelis_pool.Common.{
  ℕ, ◌+◌, ◌-◌, ◌*◌, ◌%◌, ◌^◌, Bool, true, false, List, [], ◌∷◌, ltb, if◌then◌else◌,
}
use xelis_pool.Common.Bytes.{Bytes}
use xelis_pool.Common.Assoc.{Assoc, insert, lookup_or}

abbrev pub max_connections_per_ip : ℕ
max_connections_per_ip = 100

-- `connsPerIp`
abbrev pub Conns : Type 0
Conns = Assoc ℕ

abbrev pub conns_of : Bytes → Conns → ℕ
conns_of ip m = lookup_or 0 ip m

unfoldable pub can_connect : Bytes → Conns → Conns × Bool
can_connect ip m =
    if ltb max_connections_per_ip (conns_of ip m)
    then (m, false)
    else (insert ip ((conns_of ip m + 1) % 2 ^ 32) m, true)

unfoldable pub disconnect : Bytes → Conns → Conns
disconnect ip m = if ltb 0 (conns_of ip m) then insert ip (conns_of ip m - 1) m else m

abbrev pub max_score : ℕ
max_score = 2000

abbrev pub ban_duration : ℕ
ban_duration = 5 * 60

-- `rate_limiters` and `bans`.
pub record Limiter : Type 0 where
  pub scores : Assoc ℕ
  pub bans : Assoc ℕ

abbrev pub score_of : Bytes → Limiter → ℕ
score_of ip s = lookup_or 0 ip s.scores

abbrev pub ban_ends : Bytes → Limiter → ℕ
ban_ends ip s = lookup_or 0 ip s.bans

-- The argument `ends` is not used.
unfoldable pub ban : Bytes → ℕ → ℕ → Limiter → Limiter
ban ip ends now s = record s { bans = insert ip (now + ban_duration) s.bans }

abbrev pub raised : Bytes → ℕ → Limiter → ℕ
raised ip required s = (score_of ip s + required) % 2 ^ 32

-- The score is raised first, also for a banned IP.
unfoldable pub can_do_action : Bytes → ℕ → ℕ → Limiter → Limiter × Bool
can_do_action ip required now s =
    let scores = insert ip (raised ip required s) s.scores in
    if ltb now (ban_ends ip s)
    then (record s { scores = scores }, false)
    else if ltb max_score (raised ip required s)
    then (record { scores = scores; bans = insert ip (now + ban_duration) s.bans }, false)
    else (record s { scores = scores }, true)

-- The bans that are not over.
unfoldable pub current : ℕ → Assoc ℕ → Assoc ℕ
current now [] = []
current now ((ip, ends) ∷ m) =
    let rest = current now m in if ltb now ends then (ip, ends) ∷ rest else rest

unfoldable pub clear_rl : ℕ → Limiter → Limiter
unfolding current
clear_rl now s = record { scores = []; bans = current now s.bans }
