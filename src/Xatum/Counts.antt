-- ===== src/Xatum/Counts.antt =====
-- The counts per IP that xatum/server/server.go keeps, next to those of other servers.
use xelis_pool.Common.{
  ℕ, ◌+◌, ◌%◌, ◌^◌, ◌≡◌, ap, List, [], ◌∷◌, ◌++◌, arith, Bool-cases, inl, inr, if◌then◌else◌,
}
use xelis_pool.Common.Bytes.{Bytes, ◌=?◌, =?_iff}
use xelis_pool.Common.Assoc.{lookup_or-insert}
use xelis_pool.RateLimit.{Conns, Limiter, conns_of, can_connect, can_do_action, disconnect}
use xelis_pool.RateLimit.Connections.{IsBounded, can_connect-IsBounded, disconnect-IsBounded}
use xelis_pool.Xatum.{Connection, kick, kick_conn, action_connect, accept_conn, handle_connection}
use xelis_pool.Xatum
use xelis_pool.Xatum.Kicks.{open_from, counted}

open_from-append :
    (ip : Bytes) (xs : List Connection) (c : Connection)
    → open_from ip (xs ++ (c ∷ [])) ≡ open_from ip xs + (if c.ip =? ip then 1 else 0)
unfolding open_from
open_from-append ip [] c = omega arith
open_from-append ip (x ∷ xs) c = omega (arith, open_from-append ip xs c)

-- A count that covers the connections of the server and of `others`, and stays within the limit.
module _ (others : Bytes → ℕ) where
  abbrev pub IsCounted : Xatum.Server → Type 0
  IsCounted s =
      ((ip : Bytes) → conns_of ip s.open_conns ≡ others ip + open_from ip s.connections)
      × IsBounded s.open_conns

  handle_connection-counted :
      (c : Connection) (s : Xatum.Server) (ip : Bytes)
      → conns_of ip s.open_conns ≡ others ip + open_from ip s.connections
      → conns_of ip (handle_connection c s).open_conns
        ≡ others ip + open_from ip (handle_connection c s).connections
  unfolding handle_connection can_connect
  handle_connection-counted c s ip h = ground (
    arith,
    =?_iff c.ip ip,
    cong,
    open_from-append ip s.connections c,
    lookup_or-insert 0 c.ip ip ((conns_of c.ip s.open_conns + 1) % 2 ^ 32) s.open_conns,
  )
    where
      cong : c.ip ≡ ip → conns_of c.ip s.open_conns ≡ conns_of ip s.open_conns
      cong p = ap (λ k. conns_of k s.open_conns) p

  handle_connection-IsBounded :
      (c : Connection) (s : Xatum.Server)
      → IsBounded s.open_conns
      → IsBounded (handle_connection c s).open_conns
  unfolding handle_connection
  handle_connection-IsBounded c s h ip =
      ground (arith, h ip, can_connect-IsBounded c.ip s.open_conns h ip)

  pub accept_conn-IsCounted :
      (now : ℕ) (c : Connection) (l : Limiter) (s : Xatum.Server)
      → IsCounted s
      → IsCounted (accept_conn now c l s).1
  unfolding accept_conn
  accept_conn-IsCounted now c l s h =
      elim (Bool-cases (can_do_action c.ip action_connect now l).1) [
        | inl allowed ↦
            rw (allowed, accept_conn)
              (λ ip. handle_connection-counted c s ip (h.0 ip), handle_connection-IsBounded c s h.1)
        | inr refused ↦ rw (refused, accept_conn) h
      ]

  kick-IsBounded :
      (k : ℕ) (vs : List Connection) (m : Conns) → IsBounded m → IsBounded (kick k vs m).1
  unfolding kick
  kick-IsBounded k [] m h ip = h ip
  kick-IsBounded k (v ∷ vs) m h ip = ground (
    arith,
    kick-IsBounded k vs m h ip,
    kick-IsBounded k vs (disconnect v.ip m) (disconnect-IsBounded v.ip m h) ip,
  )

  pub kick_conn-IsCounted : (k : ℕ) (s : Xatum.Server) → IsCounted s → IsCounted (kick_conn k s)
  unfolding kick_conn
  kick_conn-IsCounted k s h = (
    λ ip. counted ip k (others ip) s.connections s.open_conns (h.0 ip),
    kick-IsBounded k s.connections s.open_conns h.1,
  )
