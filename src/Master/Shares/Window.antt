-- ===== src/Master/Shares/Window.antt =====
-- Which shares are kept, and what a share found leaves in the database.
use xelis_pool.Common.{
  ℕ, ◌+◌, ◌%◌, ◌^◌, ◌≡◌, true, false, Bool, none, some, List, [], ◌∷◌, Option-cases, Bool-cases,
  inl, inr, arith, if◌then◌else◌, ltb,
}
use xelis_pool.Common.Bytes.{Bytes, =?_refl}
use xelis_pool.Database.Records.{Share}
use xelis_pool.Database.Encode.{serialize_share}
use xelis_pool.Database.Decode.{deserialize_share}
use xelis_pool.Database.RoundTrip.{IsShare, deserialize_share-serialize_share}
use xelis_pool.Master.Float.{Float}
use xelis_pool.Master.Store.{Store}
use xelis_pool.Master.Confirm.{is_banned}
use xelis_pool.Master.Rewards.{count_shares, Work, add_share}
use xelis_pool.Master.Shares.{is_current, database_cleanup, itob, Pool, on_share_found}

-- The entry can be read and is of the window.
abbrev pub IsCurrent : ℕ → ℕ → Bytes × Bytes → Type 0
IsCurrent window now e = is_current window now (deserialize_share e.1) ≡ some true

cleanup_step :
    (window now : ℕ) (k v : Bytes) (l kept : List (Bytes × Bytes))
    → database_cleanup window now ((k, v) ∷ l) ≡ some kept
    → (keep : Bool) × (rest : List (Bytes × Bytes)) × (is_current window now (deserialize_share v)
        ≡ some keep)
      × (database_cleanup window now l ≡ some rest)
      × (kept ≡ (if keep then (k, v) ∷ rest else rest))
unfolding database_cleanup
cleanup_step window now k v l kept e =
    elim (Option-cases (is_current window now (deserialize_share v))) [
      | inl f ↦ absurd (ground (arith, f))
      | inr (keep, f) ↦ elim (Option-cases (database_cleanup window now l)) [
        | inl g ↦ absurd (ground (arith, f, g))
        | inr (rest, g) ↦ (keep, rest, f, g, ground (arith, f, g))
      ]
    ]

module _ (float : Float) (window now : ℕ) where
  abbrev Shares : Type 0
  Shares = List (Bytes × Bytes)

  -- The pass of a reward over one share that the cleanup deletes, or keeps.
  count_deleted :
      (k v : Bytes) (l kept : Shares) (w w' : Work float)
      → is_current window now (deserialize_share v) ≡ some false
      → count_shares float window now ((k, v) ∷ l) w ≡ some (kept, w')
      → (rest : Shares) × (count_shares float window now l w ≡ some (rest, w'))
  unfolding count_shares is_current
  count_deleted k v l kept w w' f e = elim (Option-cases (deserialize_share v)) [
    | inl g ↦ absurd (ground (arith, g))
    | inr ((sh, some x), g) ↦ elim (Option-cases (count_shares float window now l w)) [
      | inl h ↦ absurd (ground (arith, g, h))
      | inr ((rest, u), h) ↦ (rest, ground (arith, g, h))
    ]
    | inr ((sh, none), g) ↦ (kept, ground (arith, g))
  ]

  count_kept :
      (k v : Bytes) (l kept : Shares) (w w' : Work float)
      → is_current window now (deserialize_share v) ≡ some true
      → count_shares float window now ((k, v) ∷ l) w ≡ some (kept, w')
      → (sh : Share) × (rest : Shares) × (deserialize_share v ≡ some (sh, none))
        × (ltb ((sh.time + window) % 2 ^ 64) now ≡ false)
        × (count_shares float window now l (add_share float sh w) ≡ some (rest, w'))
  unfolding count_shares is_current
  count_kept k v l kept w w' f e = elim (Option-cases (deserialize_share v)) [
    | inl g ↦ absurd (ground (arith, g))
    | inr ((sh, some x), g) ↦ absurd (ground (arith, g))
    | inr ((sh, none), g) ↦
        elim (Option-cases (count_shares float window now l (add_share float sh w))) [
          | inl h ↦ absurd (ground (arith, g, h))
          | inr ((rest, u), h) ↦ (sh, rest, g, ground (arith, g), ground (arith, g, h))
        ]
  ]

  count_again :
      (k v : Bytes) (kept : Shares) (sh : Share) (w w' : Work float)
      → deserialize_share v ≡ some (sh, none)
      → ltb ((sh.time + window) % 2 ^ 64) now ≡ false
      → count_shares float window now kept (add_share float sh w) ≡ some (kept, w')
      → count_shares float window now ((k, v) ∷ kept) w ≡ some ((k, v) ∷ kept, w')
  unfolding count_shares
  count_again k v kept sh w w' g young e = ground (arith, g, young, e)

  -- A cleanup does not change what a reward counts: where the pass of a reward over the shares
  -- succeeds, the pass over the shares that a cleanup at the same time keeps counts the same, and
  -- deletes nothing more.
  pub cleanup_keeps_count :
      (l kept seen : List (Bytes × Bytes)) (w w' : Work float)
      → database_cleanup window now l ≡ some kept
      → count_shares float window now l w ≡ some (seen, w')
      → count_shares float window now kept w ≡ some (kept, w')
  unfolding database_cleanup
  cleanup_keeps_count [] kept seen w w' c e = unfold count_shares in ground arith
  cleanup_keeps_count ((k, v) ∷ l) kept seen w w' c e =
      let (keep, rest, f, g, p) = cleanup_step window now k v l kept c in
      elim (Bool-cases keep) [
        | inl kt ↦
            let (sh, left, d, young, h) = count_kept k v l seen w w' (ground (arith, f, kt)) e in
            let same : kept ≡ (k, v) ∷ rest = ground (arith, p, kt) in
            rw same (
              count_again k v rest sh w w' d young
                (cleanup_keeps_count l rest left (add_share float sh w) w' g h))
        | inr kf ↦
            let (left, h) = count_deleted k v l seen w w' (ground (arith, f, kf)) e in
            let same : kept ≡ rest = ground (arith, p, kf) in
            rw same (cleanup_keeps_count l rest left w w' g h)
      ]

module _ (float : Float) (round : float.F → float.F) (is_zero : float.F → Bool) (store : Store)
    (is_valid : Bytes → Bool) (fee_address : Bytes) (banned : List Bytes) (now : ℕ)
    (precise : float.F) where
  open store use {get}

  -- Who is credited for a share.
  abbrev credited : Bytes → Bytes
  credited wallet = if is_valid wallet then wallet else fee_address

  -- A share of an address that is not banned (an invalid address stands for the fee address) is
  -- stored under the next number of the sequence and is read back as that share with the current
  -- time; where the bucket's `Put` succeeds, and the address and the numbers fit their encoding.
  pub on_share_found_stored :
      (wallet : Bytes) (diff : ℕ) (p : Pool float round is_zero store) (b : store.B)
      → is_banned banned (credited wallet) ≡ false
      → IsShare (record { wallet = credited wallet; diff = diff; time = now })
      → store.put
          (itob ((p.sequence + 1) % 2 ^ 64))
          (serialize_share (record { wallet = credited wallet; diff = diff; time = now }))
          p.shares
        ≡ some b
      → (v : Bytes) × (get
            (itob ((p.sequence + 1) % 2 ^ 64))
            (on_share_found float round is_zero store is_valid fee_address banned now precise wallet
              diff p).shares
          ≡ some v)
        × (deserialize_share v
            ≡ some (record { wallet = credited wallet; diff = diff; time = now }, none))
  unfolding on_share_found
  on_share_found_stored wallet diff p b free h ok =
      let sh : Share = record { wallet = credited wallet; diff = diff; time = now } in
      let key = itob ((p.sequence + 1) % 2 ^ 64) in
      (
        serialize_share sh,
        ground (arith, store.get_put key key (serialize_share sh) p.shares b ok, =?_refl key),
        deserialize_share-serialize_share sh h,
      )
