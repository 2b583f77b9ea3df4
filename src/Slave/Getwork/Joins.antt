-- ===== src/Slave/Getwork/Joins.antt =====
-- The connections that the getwork server counts: a request that is refused behind the count stays
-- counted.
use xelis_pool.Common.{
  ℕ, ◌+◌, ◌*◌, ◌%◌, ◌^◌, ◌≤◌, ◌<◌, ◌≡◌, ◌∙◌, ◌⊎◌, refl, Bool, false, inl, inr, List, [], ◌∷◌,
  length, arith, All,
}
use xelis_pool.Common.Bytes.{Bytes, =?_refl}
use xelis_pool.Common.Assoc.{lookup_or-insert}
use xelis_pool.RateLimit.{Limiter, conns_of, can_connect, max_connections_per_ip}
use xelis_pool.Slave.Getwork.{too_many, parse_path, Served, join}
use xelis_pool.Master.Float.{Float}

module _ (float : Float) (is_valid : Bytes → Bool) (min_difficulty : ℕ) (ip : Bytes) where
  -- A request that is refused for its address.
  abbrev pub IsRefused : Bytes → Type 0
  IsRefused addr = (length addr < 5) ⊎ (is_valid (parse_path min_difficulty addr).0 ≡ false)

  -- Requests from the IP, each with its time, one after the other.
  unfoldable pub join_all : List (ℕ × Bytes) → Limiter → Served float → Limiter × Served float
  unfolding join
  join_all [] l s = (l, s)
  join_all ((now, addr) ∷ rs) l s =
      let (next, out) = join float is_valid min_difficulty now (now * 1000) ip addr l s in
      join_all rs next.0 next.1

  join-refused :
      (now now_ms : ℕ) (addr : Bytes) (l : Limiter) (s : Served float)
      → IsRefused addr
      → conns_of ip s.open_conns ≤ max_connections_per_ip
      → let s' = (join float is_valid min_difficulty now now_ms ip addr l s).0.1 in
        (s'.conns ≡ s.conns) × (conns_of ip s'.open_conns ≡ conns_of ip s.open_conns + 1)
  unfolding join can_connect
  join-refused now now_ms addr l s (inl h) room = ground (
    arith,
    lookup_or-insert 0 ip ip ((conns_of ip s.open_conns + 1) % 2 ^ 32) s.open_conns,
    =?_refl ip,
  )
  join-refused now now_ms addr l s (inr h) room = ground (
    arith,
    lookup_or-insert 0 ip ip ((conns_of ip s.open_conns + 1) % 2 ^ 32) s.open_conns,
    =?_refl ip,
  )

  joins_counted :
      (rs : List (ℕ × Bytes)) (l : Limiter) (s : Served float)
      → All (λ r. IsRefused r.1) rs
      → conns_of ip s.open_conns + length rs ≤ max_connections_per_ip + 1
      → let s' = (join_all rs l s).1 in
        (s'.conns ≡ s.conns) × (conns_of ip s'.open_conns ≡ conns_of ip s.open_conns + length rs)
  unfolding join_all
  joins_counted [] l s h room = (refl, omega arith)
  joins_counted ((now, addr) ∷ rs) l s (h, hs) room =
      let (same, one) = join-refused now (now * 1000) addr l s h (omega (arith, room)) in
      let next = (join float is_valid min_difficulty now (now * 1000) ip addr l s).0 in
      let (same', all) = joins_counted rs next.0 next.1 hs (omega (arith, one, room)) in
      (same' ∙ same, omega (arith, one, all))

  join-full :
      (now now_ms : ℕ) (addr : Bytes) (l : Limiter) (s : Served float)
      → max_connections_per_ip < conns_of ip s.open_conns
      → join float is_valid min_difficulty now now_ms ip addr l s ≡ ((l, s), too_many)
  unfolding join can_connect
  join-full now now_ms addr l s full = ground arith

  -- 101 requests with an address that is too short or not valid lock their IP out: from an IP that
  -- has no connection counted they list none, and yet every later request from it is refused for
  -- too many connections, and changes nothing.
  pub joins_lock_out :
      (rs : List (ℕ × Bytes)) (l : Limiter) (s : Served float)
      → All (λ r. IsRefused r.1) rs
      → length rs ≡ max_connections_per_ip + 1
      → conns_of ip s.open_conns ≡ 0
      → let r = join_all rs l s in
        (r.1.conns ≡ s.conns)
        × ((now now_ms : ℕ) (addr : Bytes) (l' : Limiter)
            → join float is_valid min_difficulty now now_ms ip addr l' r.1 ≡ ((l', r.1), too_many))
  joins_lock_out rs l s h many fresh =
      let (same, count) = joins_counted rs l s h (omega (arith, many, fresh)) in
      (
        same,
        λ now now_ms addr l'.
            join-full now now_ms addr l' (join_all rs l s).1 (omega (arith, count, many, fresh)),
      )
