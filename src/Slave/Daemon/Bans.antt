-- ===== src/Slave/Daemon/Bans.antt =====
-- An idle Xatum miner is banned under its address with the port, and a share for another pool stops
-- its connection.
use xelis_pool.Common.{
  if-true, if-false, ℕ, ◌+◌, ◌*◌, ◌≡◌, ◌≢◌, ◌∙◌, refl, sym, ap, Bool, true, false, Bool-cases, inl,
  inr, Option, none, some, List, [], ◌∷◌, ◌++◌, length, drop, All, arith, ◌==◌,
}
use xelis_pool.Common.Bytes.{Bytes, codes, =?_iff}
use xelis_pool.Common.Text.{remove_port, split}
use xelis_pool.Common.Assoc.{lookup_or-insert}
use xelis_pool.RateLimit.{Limiter, ban, can_do_action}
use xelis_pool.Pow.BlockMiner.{blockminer_length, get_pool_nonce}
use xelis_pool.Slave.Submit.{Miner, blank_id, check_submit}
use xelis_pool.Slave.Packet.{Submit, Decoder, MemJob, on_share, handle_conn_packet}
use xelis_pool.Slave.Packet.Accepted.{handle_conn_packet-submit}
use xelis_pool.Slave.Daemon.{XatumConn, turn, blocked, send_to_conn, handle_conn}
use xelis_pool.Master.Float.{Float}

split-ne-nil : (s : ℕ) (zs : Bytes) → (x : Bytes) × (rest : List Bytes) × (split s zs ≡ x ∷ rest)
unfolding split
split-ne-nil s [] = ([], [], refl)
split-ne-nil s (z ∷ zs) =
    let (x, rest, e) = split-ne-nil s zs in
    elim (Bool-cases (z == s)) [
      | inl at ↦ ([], x ∷ rest, rw (e, split) (rw at refl))
      | inr other ↦ (z ∷ x, rest, rw (e, split) (rw other refl))
    ]

split-first :
    (sep : ℕ) (xs ys : Bytes)
    → All (λ x. (x == sep) ≡ false) xs
    → (rest : List Bytes) × (split sep (xs ++ (sep ∷ ys)) ≡ xs ∷ rest)
unfolding split
split-first sep [] ys h =
    let (x, rest, e) = split-ne-nil sep ys in (x ∷ rest, rw (e, split) (ground arith))
split-first sep (x ∷ xs) ys (hx, h) =
    let (rest, e) = split-first sep xs ys h in (rest, rw (e, split) (rw hx refl))

-- An address without its port is what stands before the first colon.
remove_port-address :
    (ip port : Bytes) → All (λ x. (x == 58) ≡ false) ip → remove_port (ip ++ (58 ∷ port)) ≡ ip
unfolding remove_port
remove_port-address ip port h = let (rest, e) = split-first 58 ip port h in rw (e, remove_port) refl

can_do_action-ban :
    (key ip : Bytes) (ends now required later : ℕ) (l : Limiter)
    → key ≢ ip
    → (can_do_action ip required later (ban key ends now l)).1
      ≡ (can_do_action ip required later l).1
unfolding can_do_action ban
can_do_action-ban key ip ends now required later l other =
    ground (arith, lookup_or-insert 0 key ip (now + 5 * 60) l.bans, =?_iff key ip, absurd_key)
  where
    absurd_key : key ≡ ip → ⊥
    absurd_key p = other p

longer : (ip port : Bytes) → (ip ++ (58 ∷ port)) ≢ ip
longer [] port e = ground (arith, e)
longer (x ∷ ip) port e = longer ip port (ap (λ l. drop 1 l) e)

module _ (float : Float) (min_difficulty : ℕ) (pool_nonce : Bytes) where
  open float use {F}

  -- Where an address is an IP without a colon, a colon and a port: what `sendJobs` does to the
  -- connection, the ban of a miner without a recent share included, leaves every action of the IP,
  -- at any time and of any cost, allowed or refused just as before. The IP is what every other
  -- check asks for.
  pub idle_ban_misses :
      (seconds : F) (random : Bytes) (now now_ms diff : ℕ) (blob ip port : Bytes) (l : Limiter)
      (c : XatumConn float) (required later : ℕ)
      → c.address ≡ ip ++ (58 ∷ port)
      → All (λ x. (x == 58) ≡ false) ip
      → let t =
          send_to_conn float min_difficulty pool_nonce seconds random now now_ms diff blob l c in
        (remove_port c.address ≡ ip)
        × ((can_do_action ip required later t.limiter).1 ≡ (can_do_action ip required later l).1)
  unfolding send_to_conn
  idle_ban_misses seconds random now now_ms diff blob ip port l c required later e h = (
    ap remove_port e ∙ remove_port-address ip port h,
    ground (
      arith,
      can_do_action-ban c.address ip (now + 5 * 60) now required later l
          (λ p. longer ip port (sym e ∙ p)),
    ),
  )

  module _ (decoder : Decoder) (is_valid : Bytes → Bool) (last : MemJob) (now now_ms : ℕ)
      (seconds : F) (random : Bytes) where
    locked_round :
        (n : ℕ) (read : Option Bytes) (l : Limiter) (c : XatumConn float)
        → c.client.miner.locked ≡ true
        → handle_conn float min_difficulty pool_nonce decoder is_valid last now now_ms seconds
            random n read l c
          ≡ turn float c l [] blocked
    unfolding handle_conn
    locked_round n none l c h = if-true _ _ h
    locked_round n (some str) l c h = if-true _ _ h

    other_pool-locked :
        (miner_id : Bytes) (bm : Bytes) (s : Miner)
        → length bm ≡ blockminer_length
        → get_pool_nonce bm ≢ pool_nonce
        → (check_submit now_ms pool_nonce miner_id bm s).0.locked ≡ true
    unfolding check_submit
    other_pool-locked miner_id bm s size other =
        ground (arith, size, =?_iff (get_pool_nonce bm) pool_nonce, absurd_nonce)
      where
        absurd_nonce : get_pool_nonce bm ≡ pool_nonce → ⊥
        absurd_nonce p = other p

    -- A submit packet, behind the first packet and within the rate, of a block of 112 bytes with
    -- another pool nonce stops the connection of a Xatum miner that does not hold its mutex: the
    -- handler waits for the mutex that it holds itself, so that the miner is sent nothing and is
    -- not kicked, and no later packet is handled.
    pub other_pool_blocks :
        (received : ℕ) (body : Bytes) (p : Submit) (l : Limiter) (c : XatumConn float)
        → (received == 1) ≡ false
        → c.client.miner.locked ≡ false
        → (can_do_action (remove_port c.address) 1 now l).1 ≡ true
        → decoder.submit body ≡ some p
        → length p.block ≡ blockminer_length
        → get_pool_nonce p.block ≢ pool_nonce
        → let t =
            handle_conn float min_difficulty pool_nonce decoder is_valid last now now_ms seconds
              random received
              (some (codes "submit~" ++ body))
              l
              c in
          (t.status ≡ blocked)
          × (t.sent ≡ [])
          × ((n : ℕ) (read : Option Bytes) (l' : Limiter)
              → handle_conn float min_difficulty pool_nonce decoder is_valid last now now_ms seconds
                  random n read l' t.conn
                ≡ turn float t.conn l' [] blocked)
    other_pool_blocks received body p l c later free allowed decoded size other =
        let ip = remove_port c.address in
        let r =
          handle_conn_packet float decoder is_valid min_difficulty last now now_ms ip pool_nonce
            blank_id received (codes "submit~" ++ body) l c.client in
        let shared =
          handle_conn_packet-submit float decoder is_valid min_difficulty last now now_ms ip
            pool_nonce blank_id received body p l c.client later decoded allowed in
        let held : r.client.miner.locked ≡ true =
          ap (λ r. r.client.miner.locked) shared
          ∙ unfold on_share in other_pool-locked blank_id p.block c.client.miner size other in
        let stuck : handle_conn float min_difficulty pool_nonce decoder is_valid last now now_ms
              seconds random received (some (codes "submit~" ++ body)) l c
            ≡ turn float (record c { client = r.client }) r.limiter [] blocked =
          unfold handle_conn in (if-false _ _ free ∙ if-true _ _ held) in
        rw stuck
          (refl, refl, λ n read l'. locked_round n read l' (record c { client = r.client }) held)
