-- ===== src/RateLimit/Connections.antt =====
-- The connections that an IP can hold.
use xelis_pool.Common.{
  ◌+◌, ◌-◌, ◌%◌, ◌^◌, ◌&&◌, ◌≤◌, ◌≡◌, true, List, [], ◌∷◌, arith, if◌then◌else◌, leb,
}
use xelis_pool.Common.Bytes.{Bytes, ◌=?◌, =?_iff, =?_refl}
use xelis_pool.Common.Assoc.{insert, lookup_or-insert}
use xelis_pool.RateLimit.{Conns, conns_of, can_connect, disconnect, max_connections_per_ip}

-- What miners do: each event is one call.
pub data Event : Type 0 where
  arrive leave : Bytes → Event

unfoldable pub step : Conns → Event → Conns
step m (arrive ip) = (can_connect ip m).0
step m (leave ip) = disconnect ip m

unfoldable pub run : Conns → List Event → Conns
unfolding step
run m [] = m
run m (e ∷ es) = run (step m e) es

-- The bound is one more than the constant.
abbrev pub IsBounded : Conns → Type 0
IsBounded m = (ip : Bytes) → conns_of ip m ≤ max_connections_per_ip + 1

pub can_connect-IsBounded : (ip : Bytes) (m : Conns) → IsBounded m → IsBounded (can_connect ip m).0
unfolding can_connect
can_connect-IsBounded ip m h j =
    ground (arith, h j, h ip, lookup_or-insert 0 ip j ((conns_of ip m + 1) % 2 ^ 32) m)

pub disconnect-IsBounded : (ip : Bytes) (m : Conns) → IsBounded m → IsBounded (disconnect ip m)
unfolding disconnect
disconnect-IsBounded ip m h j =
    ground (arith, h j, h ip, lookup_or-insert 0 ip j (conns_of ip m - 1) m)

step-IsBounded : (e : Event) (m : Conns) → IsBounded m → IsBounded (step m e)
unfolding step
step-IsBounded (arrive ip) m h = can_connect-IsBounded ip m h
step-IsBounded (leave ip) m h = disconnect-IsBounded ip m h

-- Whatever miners connect and disconnect, from a bounded state on no IP holds more than
-- MAX_CONNECTIONS_PER_IP + 1 connections.
pub run-IsBounded : (es : List Event) (m : Conns) → IsBounded m → IsBounded (run m es)
unfolding run
run-IsBounded [] m h = h
run-IsBounded (e ∷ es) m h = run-IsBounded es (step m e) (step-IsBounded e m h)

-- In a bounded state a connection is accepted exactly where the IP holds at most
-- MAX_CONNECTIONS_PER_IP; then its count grows by one, else nothing changes; the counts of other
-- IPs stay.
pub can_connect_lem :
    (ip j : Bytes) (m : Conns)
    → IsBounded m
    → ((can_connect ip m).1 ≡ leb (conns_of ip m) max_connections_per_ip)
      × (conns_of j (can_connect ip m).0 ≡ (
          if ip =? j && leb (conns_of ip m) max_connections_per_ip
          then conns_of ip m + 1
          else conns_of j m))
unfolding can_connect
can_connect_lem ip j m h = (
  ground arith,
  ground (arith, h ip, =?_iff ip j, lookup_or-insert 0 ip j ((conns_of ip m + 1) % 2 ^ 32) m),
)

-- In a bounded state, a disconnect after an accepted connect restores every count.
pub disconnect-can_connect :
    (ip j : Bytes) (m : Conns)
    → IsBounded m
    → (can_connect ip m).1 ≡ true
    → conns_of j (disconnect ip (can_connect ip m).0) ≡ conns_of j m
unfolding can_connect disconnect
disconnect-can_connect ip j m h ok =
    let m' = insert ip ((conns_of ip m + 1) % 2 ^ 32) m in
    ground (
      arith,
      h ip,
      =?_iff ip j,
      =?_refl ip,
      lookup_or-insert 0 ip j ((conns_of ip m + 1) % 2 ^ 32) m,
      lookup_or-insert 0 ip ip ((conns_of ip m + 1) % 2 ^ 32) m,
      lookup_or-insert 0 ip j (conns_of ip m' - 1) m',
    )
