-- ===== src/Slave/Packet/Accepted.antt =====
-- A submit packet whose share passes the checks.
use xelis_pool.Common.{ℕ, ◌≡◌, refl, Bool, true, false, some, [], ◌∷◌, ◌++◌, arith, ◌==◌, All}
use xelis_pool.Common.Bytes.{Bytes, codes, ◌=?◌}
use xelis_pool.Common.Text.{split_first}
use xelis_pool.RateLimit.{Limiter, can_do_action}
use xelis_pool.Slave.Submit.{Job, Miner, accepted, check_submit, against_job}
use xelis_pool.Slave.Packet.{
  Submit, Decoder, MemJob, Client, by_kind, on_submit, on_share, handle_conn_packet,
}
use xelis_pool.Master.Float.{Float}

split_first_self : (sep : ℕ) (ys : Bytes) → split_first sep (sep ∷ ys) ≡ some ([], ys)
unfolding split_first
split_first_self sep ys = ground arith

pub split_first-append :
    (sep : ℕ) (xs ys : Bytes)
    → All (λ x. (x == sep) ≡ false) xs
    → split_first sep (xs ++ (sep ∷ ys)) ≡ some (xs, ys)
unfolding split_first
split_first-append sep [] ys h = split_first_self sep ys
split_first-append sep (x ∷ xs) ys (hx, h) = ground (arith, hx, split_first-append sep xs ys h)

-- An accepted share leaves the mutex as it was.
pub check_submit-locked :
    (now : ℕ) (pool_nonce miner_id bm bm' : Bytes) (s : Miner) (j : Job)
    → (check_submit now pool_nonce miner_id bm s).1 ≡ accepted j bm'
    → (check_submit now pool_nonce miner_id bm s).0.locked ≡ s.locked
unfolding check_submit against_job
check_submit-locked now pool_nonce miner_id bm bm' s j e = ground arith

module _ (float : Float) (decoder : Decoder) (is_valid : Bytes → Bool) (min_difficulty : ℕ)
    (last : MemJob) (now now_ms : ℕ) (ip pool_nonce miner_id : Bytes) where
  -- Behind the first packet a submit packet within the rate goes to the checks of the share.
  pub handle_conn_packet-submit :
      (received : ℕ) (body : Bytes) (p : Submit) (l : Limiter) (c : Client float)
      → (received == 1) ≡ false
      → decoder.submit body ≡ some p
      → (can_do_action ip 1 now l).1 ≡ true
      → handle_conn_packet float decoder is_valid min_difficulty last now now_ms ip pool_nonce
          miner_id received
          (codes "submit~" ++ body)
          l
          c
        ≡ on_share float decoder is_valid min_difficulty last now now_ms ip pool_nonce miner_id p
            (can_do_action ip 1 now l).0
            c
  unfolding handle_conn_packet by_kind on_submit ◌=?◌
  handle_conn_packet-submit received body p l c later decoded allowed =
      rw
        (
          split_first-append 126 (codes "submit") body
              (refl, (refl, (refl, (refl, (refl, (refl, tt)))))),
          handle_conn_packet,
        )
        (rw (later, by_kind) (rw (allowed, on_submit) (rw decoded refl)))
