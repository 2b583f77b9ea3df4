-- ===== src/Slave/Sweep.antt =====
-- The dead connections that `sendJobs` of cmd/slave/stratum.go and `sendGetworkJobs` of
-- cmd/slave/getwork.go take out of their server, and the connections that it accepts.
use xelis_pool.Common.{
  ℕ, ◌+◌, ◌%◌, ◌^◌, ◌≡◌, refl, ap, Bool, true, List, [], ◌∷◌, ◌++◌, All, arith, if◌then◌else◌,
}
use xelis_pool.Common.Bytes.{Bytes, ◌=?◌, =?_iff}
use xelis_pool.Common.Assoc.{lookup_or-insert}
use xelis_pool.RateLimit.{Conns, conns_of, can_connect, disconnect}
use xelis_pool.Xatum.Kicks.{conns_of-disconnect}

module _ {A : Type 0} (ip_of : A → Bytes) (is_alive : A → Bool) where
  -- The connections that stay, in order, and the counts per IP.
  unfoldable pub sweep : List A → Conns → List A × Conns
  sweep [] m = ([], m)
  sweep (c ∷ cs) m =
      let dead = sweep cs (disconnect (ip_of c) m) in
      let stays = sweep cs m in if is_alive c then (c ∷ stays.0, stays.1) else dead

  -- The connections of an IP in the list.
  unfoldable pub listed : Bytes → List A → ℕ
  listed ip [] = 0
  listed ip (c ∷ cs) = (if ip_of c =? ip then 1 else 0) + listed ip cs

  pub counted :
      (ip : Bytes) (extra : ℕ) (cs : List A) (m : Conns)
      → conns_of ip m ≡ extra + listed ip cs
      → conns_of ip (sweep cs m).1 ≡ extra + listed ip (sweep cs m).0
  unfolding sweep listed
  counted ip extra [] m h = h
  counted ip extra (c ∷ cs) m h = ground (
    arith,
    conns_of-disconnect (ip_of c) ip m,
    counted ip extra cs (disconnect (ip_of c) m),
    counted ip (extra + (if ip_of c =? ip then 1 else 0)) cs m,
  )

  sweep_alive : (cs : List A) (m : Conns) → All (λ c. is_alive c ≡ true) (sweep cs m).0
  unfolding sweep
  sweep_alive [] m = tt
  sweep_alive (c ∷ cs) m = ground (arith, sweep_alive cs (disconnect (ip_of c) m), sweep_alive cs m)

  -- The counter of every IP is the number of its connections in the list and of `others`.
  abbrev pub Counted : (Bytes → ℕ) → List A → Conns → Type 0
  Counted others cs m = (ip : Bytes) → conns_of ip m ≡ others ip + listed ip cs

  -- A sweep leaves only live connections; and where the counters were right, they still are.
  pub sweep_lem :
      (others : Bytes → ℕ) (cs : List A) (m : Conns)
      → Counted others cs m
      → All (λ c. is_alive c ≡ true) (sweep cs m).0 × Counted others (sweep cs m).0 (sweep cs m).1
  sweep_lem others cs m h = (sweep_alive cs m, λ ip. counted ip (others ip) cs m (h ip))

  pub listed-append :
      (ip : Bytes) (xs ys : List A) → listed ip (xs ++ ys) ≡ listed ip xs + listed ip ys
  unfolding listed
  listed-append ip [] ys = omega arith
  listed-append ip (x ∷ xs) ys = omega (arith, listed-append ip xs ys)

  -- Another connection of the same IP in the place of one.
  pub listed-replaced :
      (ip : Bytes) (before behind : List A) (c c' : A)
      → ip_of c' ≡ ip_of c
      → listed ip (before ++ (c' ∷ behind)) ≡ listed ip (before ++ (c ∷ behind))
  unfolding listed
  listed-replaced ip before behind c c' e =
      let same : listed ip (c' ∷ behind) ≡ listed ip (c ∷ behind) = rw e refl in
      omega
        (arith, same, listed-append ip before (c' ∷ behind), listed-append ip before (c ∷ behind))

  -- `CanConnect`, and the connection at the end of the list where it may connect.
  unfoldable pub admit : A → List A → Conns → List A × Conns
  admit c cs m =
      let (m', allowed) = can_connect (ip_of c) m in
      if allowed then (cs ++ (c ∷ []), m') else (cs, m')

  -- A connection that is admitted, or refused, leaves the counters right.
  pub admit_lem :
      (others : Bytes → ℕ) (c : A) (cs : List A) (m : Conns)
      → Counted others cs m
      → Counted others (admit c cs m).0 (admit c cs m).1
  unfolding admit can_connect listed
  admit_lem others c cs m h ip = ground (
    arith,
    h ip,
    =?_iff (ip_of c) ip,
    cong,
    listed-append ip cs (c ∷ []),
    lookup_or-insert 0 (ip_of c) ip ((conns_of (ip_of c) m + 1) % 2 ^ 32) m,
  )
    where
      cong : ip_of c ≡ ip → conns_of (ip_of c) m ≡ conns_of ip m
      cong p = ap (λ k. conns_of k m) p
