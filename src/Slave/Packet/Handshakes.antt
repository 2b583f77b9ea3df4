-- ===== src/Slave/Packet/Handshakes.antt =====
-- What a packet may change of a miner's address and difficulty before the verification of a share.
use xelis_pool.Common.{
  ℕ, ◌≤◌, ◌≡◌, ◌≢◌, ◌⊎◌, refl, inl, inr, Bool, ◌&&◌, not, Bool-cases, Option-cases, Option, none,
  some, arith, ◌==◌,
}
use xelis_pool.Common.Bytes.{Bytes, codes, ◌=?◌}
use xelis_pool.Common.Text.{split_first}
use xelis_pool.Master.Float.{Float}
use xelis_pool.RateLimit.{Limiter}
use xelis_pool.Slave.Packet.{
  replied, Handshake, Decoder, Reply, malformed, need_handshake, silent, unknown, MemJob,
  max_start_diff, clamp_diff, parse_addr, supports, Client, Handled, accepted_of, with_diff, shake,
  on_handshake, on_share, on_submit, by_kind, handle_conn_packet,
}

-- The difficulty that is read from an address lies between the two bounds.
parse_addr_bounds :
    (min_difficulty d : ℕ) (addr wall : Bytes)
    → min_difficulty ≤ max_start_diff
    → parse_addr min_difficulty addr ≡ (wall, some d)
    → (min_difficulty ≤ d) × (d ≤ max_start_diff)
unfolding parse_addr clamp_diff
parse_addr_bounds min_difficulty d addr wall h e = ground arith

module _ (float : Float) (decoder : Decoder) (is_valid : Bytes → Bool) (min_difficulty : ℕ)
    (last : MemJob) (hmin : min_difficulty ≤ max_start_diff) where
  open float use {F, of_ℕ}

  -- The difficulty that a packet leaves: the one before, or one that was asked for, within the bounds.
  abbrev pub WithinBounds : F → F → Type 0
  WithinBounds before after =
      (after ≡ before) ⊎ ((d : ℕ) × (after ≡ of_ℕ d) × (min_difficulty ≤ d) × (d ≤ max_start_diff))

  with_diff_bounds :
      (addr wall : Bytes) (diff : Option ℕ) (c : Client float)
      → parse_addr min_difficulty addr ≡ (wall, diff)
      → WithinBounds c.next_diff
          (with_diff float decoder is_valid min_difficulty last diff c).next_diff
  unfolding with_diff
  with_diff_bounds addr wall none c e = inl refl
  with_diff_bounds addr wall (some d) c e =
      let (low, high) = parse_addr_bounds min_difficulty d addr wall hmin e in
      inr (d, refl, low, high)

  shake_bounds :
      (h : Handshake) (l : Limiter) (c : Client float)
      → WithinBounds c.next_diff
          (shake float decoder is_valid min_difficulty last h l c).client.next_diff
  unfolding shake
  shake_bounds h l c =
      let r = parse_addr min_difficulty h.addr in
      let b = with_diff_bounds h.addr r.0 r.1 c refl in
      elim (Bool-cases (is_valid r.0)) [
        | inl good ↦ elim (Bool-cases (supports h.algos)) [
          | inl known ↦ rw good (rw known b)
          | inr other ↦ rw good (rw other b)
        ]
        | inr bad ↦ rw bad (inl refl)
      ]

  -- What is kept of a connection apart from the jobs.
  abbrev SameIdentity : Client float → Client float → Type 0
  SameIdentity before after = (after.wallet ≡ before.wallet) × (after.next_diff ≡ before.next_diff)

  -- What a packet keeps, `received` counting it.
  abbrev pub Kept : ℕ → Client float → Handled float → Type 0
  Kept received c r =
      WithinBounds c.next_diff r.client.next_diff
      × (received ≢ 1 → SameIdentity c r.client)
      × (received ≡ 1 → (r.client.miner ≡ c.miner) × (accepted_of r.reply ≡ none))

  replied-Kept :
      (received : ℕ) (c : Client float) (l : Limiter) (p : Reply)
      → accepted_of p ≡ none
      → Kept received c (replied float c l p)
  replied-Kept received c l p other = (inl refl, λ n. (refl, refl), λ e. (refl, other))

  shake_miner :
      (h : Handshake) (l : Limiter) (c : Client float)
      → let r = shake float decoder is_valid min_difficulty last h l c in
        (r.client.miner ≡ c.miner) × (accepted_of r.reply ≡ none)
  unfolding shake with_diff accepted_of
  shake_miner h l c = ground arith

  on_handshake-Kept :
      (received : ℕ) (body : Bytes) (l : Limiter) (c : Client float)
      → Kept received c (on_handshake float decoder is_valid min_difficulty last received body l c)
  unfolding on_handshake accepted_of
  on_handshake-Kept received body l c = elim (Bool-cases (received == 1)) [
    | inl first ↦ elim (Option-cases (decoder.handshake body)) [
      | inl bad ↦ rw first (rw bad (inl refl, λ n. (refl, refl), λ e. (refl, refl)))
      | inr (h, good) ↦ rw first (
          rw good
            (shake_bounds h l c, λ n. absurd (n (ground (arith, first))), λ e. shake_miner h l c))
    ]
    | inr later ↦ rw later (inl refl, λ n. (refl, refl), λ e. (refl, refl))
  ]

  module _ (now now_ms : ℕ) (ip pool_nonce miner_id : Bytes) where
    on_submit_identity :
        (body : Bytes) (l : Limiter) (c : Client float)
        → SameIdentity c
            (on_submit float decoder is_valid min_difficulty last now now_ms ip pool_nonce miner_id
              body l c).client
    unfolding on_submit on_share
    on_submit_identity body l c = ground arith

    by_kind-Kept :
        (pack : Bytes) (received : ℕ) (body : Bytes) (l : Limiter) (c : Client float)
        → Kept received c (
            by_kind float decoder is_valid min_difficulty last now now_ms ip pool_nonce miner_id
              pack received body l c)
    unfolding by_kind accepted_of
    by_kind-Kept pack received body l c =
        elim (Bool-cases (received == 1 && not (pack =? codes "shake"))) [
          | inl refused ↦ rw (refused, by_kind) (replied-Kept received c l need_handshake refl)
          | inr fine ↦
              rw (fine, by_kind)
                (elim (Bool-cases (pack =? codes "shake")) [
                  | inl hand ↦ rw hand (on_handshake-Kept received body l c)
                  | inr other ↦ rw other (elim (Bool-cases (pack =? codes "pong")) [
                    | inl pong ↦ rw pong (replied-Kept received c l silent refl)
                    | inr no_pong ↦ rw no_pong (elim (Bool-cases (pack =? codes "submit")) [
                      | inl sub ↦ rw sub (
                          let same = on_submit_identity body l c in
                          (inl same.1, λ n. same, λ e. absurd (ground (arith, fine, other, e))))
                      | inr none_of_them ↦ rw none_of_them (replied-Kept received c l unknown refl)
                    ])
                  ])
                ])
        ]

    -- Up to the verification of a share a packet leaves the difficulty, or sets one within the
    -- bounds; one behind the first leaves the address and the difficulty; and the first one leaves
    -- the jobs and is no share.
    pub handle_conn_packet_identity :
        (received : ℕ) (str : Bytes) (l : Limiter) (c : Client float)
        → Kept received c (
            handle_conn_packet float decoder is_valid min_difficulty last now now_ms ip pool_nonce
              miner_id received str l c)
    unfolding handle_conn_packet accepted_of
    handle_conn_packet_identity received str l c = elim (Option-cases (split_first 126 str)) [
      | inl bad ↦ rw (bad, handle_conn_packet) (replied-Kept received c l malformed refl)
      | inr ((pack, body), good) ↦
          rw (good, handle_conn_packet) (by_kind-Kept pack received body l c)
    ]
