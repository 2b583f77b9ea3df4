-- ===== src/Xatum/Kicks.antt =====
-- What a kick leaves, and the least difficulty of a miner.
use xelis_pool.Common.{ℕ, ◌+◌, ◌-◌, ◌≡◌, ap, false, List, [], ◌∷◌, All, arith, ◌==◌, if◌then◌else◌}
use xelis_pool.Common.Bytes.{Bytes, ◌=?◌, =?_iff}
use xelis_pool.Common.Assoc.{lookup_or-insert}
use xelis_pool.RateLimit.{Conns, conns_of, disconnect}
use xelis_pool.Master.Float.{Float}
use xelis_pool.Xatum.{Connection, kick, get_next_diff}

-- The connections of an IP.
unfoldable pub open_from : Bytes → List Connection → ℕ
open_from ip [] = 0
open_from ip (v ∷ vs) = (if v.ip =? ip then 1 else 0) + open_from ip vs

pub conns_of-disconnect :
    (ip j : Bytes) (m : Conns)
    → conns_of j (disconnect ip m) ≡ (if ip =? j then conns_of j m - 1 else conns_of j m)
unfolding disconnect
conns_of-disconnect ip j m =
    ground (arith, =?_iff ip j, cong, lookup_or-insert 0 ip j (conns_of ip m - 1) m)
  where
    cong : ip ≡ j → conns_of ip m ≡ conns_of j m
    cong p = ap (λ k. conns_of k m) p

pub counted :
    (ip : Bytes) (k extra : ℕ) (vs : List Connection) (m : Conns)
    → conns_of ip m ≡ extra + open_from ip vs
    → conns_of ip (kick k vs m).1 ≡ extra + open_from ip (kick k vs m).0
unfolding kick open_from
counted ip k extra [] m h = h
counted ip k extra (v ∷ vs) m h = ground (
  arith,
  conns_of-disconnect v.ip ip m,
  counted ip k extra vs (disconnect v.ip m),
  counted ip k (extra + (if v.ip =? ip then 1 else 0)) vs m,
)

none_with_id :
    (k : ℕ) (vs : List Connection) (m : Conns) → All (λ v. (v.id == k) ≡ false) (kick k vs m).0
unfolding kick
none_with_id k [] m = tt
none_with_id k (v ∷ vs) m =
    ground (arith, none_with_id k vs (disconnect v.ip m), none_with_id k vs m)

-- A kick leaves no connection with the id; and where the count of an IP was the number of its
-- connections, it still is.
pub kick_lem :
    (k : ℕ) (vs : List Connection) (m : Conns)
    → ((ip : Bytes) → conns_of ip m ≡ open_from ip vs)
    → All (λ v. (v.id == k) ≡ false) (kick k vs m).0
      × ((ip : Bytes) → conns_of ip (kick k vs m).1 ≡ open_from ip (kick k vs m).0)
kick_lem k vs m h =
    (none_with_id k vs m, λ ip. omega (arith, counted ip k 0 vs m (omega (arith, h ip))))

-- The next difficulty of a miner is not below the least difficulty, as far as no number is below
-- itself.
pub get_next_diff_bound :
    (float : Float) (min_difficulty : ℕ) (seconds next_diff : float.F)
    → ((x : float.F) → float.lt x x ≡ false)
    → float.lt (get_next_diff float min_difficulty seconds next_diff) (float.of_ℕ min_difficulty)
      ≡ false
unfolding get_next_diff
get_next_diff_bound float min_difficulty seconds next_diff irr =
    ground (arith, irr (float.of_ℕ min_difficulty))
