-- ===== src/Master/Shares.antt =====
-- `OnShareFound` and `DatabaseCleanup` of cmd/master/master.go, and the hashrate of an address in
-- cmd/master/stats.go.
pub mod Window
use xelis_pool.Common.{
  ℕ, ◌+◌, ◌%◌, ◌^◌, Bool, true, false, Option, none, some, List, [], ◌∷◌, ltb, if◌then◌else◌,
}
use xelis_pool.Common.Bytes.{Bytes, le_bytes}
use xelis_pool.Common.Assoc.{Assoc, insert, lookup_or}
use xelis_pool.Serializer.Reader.{Error}
use xelis_pool.Database.Records.{Share}
use xelis_pool.Database.Encode.{serialize_share}
use xelis_pool.Database.Decode.{deserialize_share}
use xelis_pool.Master.Float.{Float}
use xelis_pool.Master.Store.{Store}
use xelis_pool.Master.Confirm.{is_banned}

-- `util.Itob`
abbrev pub itob : ℕ → Bytes
itob n = le_bytes 8 n

-- Whether a stored share is of the window; `none` is a panic, and an unreadable share is not.
unfoldable pub is_current : ℕ → ℕ → Option (Share × Option Error) → Option Bool
is_current window now none = none
is_current window now (some (sh, some e)) = some false
is_current window now (some (sh, none)) =
    some (if ltb ((sh.time + window) % 2 ^ 64) now then false else true)

-- The bucket of shares after the cleanup: what a cursor meets, without what is deleted.
unfoldable pub database_cleanup : ℕ → ℕ → List (Bytes × Bytes) → Option (List (Bytes × Bytes))
unfolding is_current
database_cleanup window now [] = some []
database_cleanup window now ((k, v) ∷ l) = elim (is_current window now (deserialize_share v)) [
  | none ↦ none
  | some keep ↦ elim (database_cleanup window now l) [
    | none ↦ none
    | some kept ↦ some (if keep then (k, v) ∷ kept else kept)
  ]
]

module _ (float : Float) (round : float.F → float.F) (is_zero : float.F → Bool) where
  open float use {F, of_ℕ, add, sub, mul, div, lt}

  pub record KnownAddress : Type 0 where
    pub last_share : F
    pub avg_hashrate : F

  abbrev pub unknown_address : KnownAddress
  unknown_address = record { last_share = of_ℕ 0; avg_hashrate = of_ℕ 0 }

  -- `OFFLINE_AFTER` and the clock.
  unfoldable pub get_hashrate : F → F → KnownAddress → KnownAddress × F
  get_hashrate offline_after now k =
      if lt (add k.last_share offline_after) now
      then (record { last_share = now; avg_hashrate = of_ℕ 0 }, of_ℕ 0)
      else (k, k.avg_hashrate)

  -- `K` is 30.
  unfoldable pub smoothed : F → F → F → F
  smoothed diff s ahr = round (div (add (mul ahr (of_ℕ 29)) (div diff s)) (of_ℕ 30))

  unfoldable pub add_share : F → F → KnownAddress → KnownAddress
  unfolding smoothed
  add_share diff time k =
      if is_zero k.last_share
      then record { last_share = time; avg_hashrate = of_ℕ 0 }
      else (let last : F =
            if lt (sub time (of_ℕ 1)) k.last_share then sub time (of_ℕ 1) else k.last_share in
          record { last_share = time; avg_hashrate = smoothed diff (sub time last) k.avg_hashrate })

  -- The parts of the statistics that a share changes; the rest of `Cleanup` follows it.
  pub record Found : Type 0 where
    pub known : Assoc KnownAddress
    pub hashes : F

  module _ (store : Store) where
    open store use {B, put}

    -- What a share does: the statistics, and the bucket of shares with its sequence.
    pub record Pool : Type 0 where
      pub stats : Found
      pub shares : B
      pub sequence : ℕ

    -- The clocks give the time in seconds, whole and with a fraction.
    module _ (is_valid : Bytes → Bool) (fee_address : Bytes) (banned : List Bytes) (now : ℕ)
        (precise : F) where
      unfoldable pub count_share : Bytes → ℕ → Found → Found
      unfolding add_share
      count_share wallet diff s = record {
        known =
            insert wallet (add_share (of_ℕ diff) precise (lookup_or unknown_address wallet s.known))
              s.known;
        hashes = add s.hashes (of_ℕ diff);
      }

      -- An error of the `Put` is ignored, the sequence has moved.
      unfoldable pub store_share : Bytes → ℕ → Pool → Pool
      unfolding count_share
      store_share wallet diff p =
          let id = (p.sequence + 1) % 2 ^ 64 in
          let sh : Share = record { wallet = wallet; diff = diff; time = now } in
          record {
            stats = count_share wallet diff p.stats;
            sequence = id;
            shares = elim (put (itob id) (serialize_share sh) p.shares) [
              | none ↦ p.shares
              | some b ↦ b
            ];
          }

      unfoldable pub on_share_found : Bytes → ℕ → Pool → Pool
      unfolding store_share
      on_share_found wallet diff p =
          let payee = if is_valid wallet then wallet else fee_address in
          if is_banned banned payee then p else store_share payee diff p
