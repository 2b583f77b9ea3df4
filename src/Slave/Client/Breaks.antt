-- ===== src/Slave/Client/Breaks.antt =====
-- What a slave hears of the master where connections fail and break.
use xelis_pool.Common.{
  ℕ, zero, suc, ◌-◌, ◌<◌, ◌≡◌, refl, ap, sym, ◌∙◌, Bool-cases, inl, inr, Option, none, some, List,
  [], ◌∷◌, ◌++◌, map, length, take, All, arith, ltb, if◌then◌else◌, length-append, length-take,
  take-append_long,
}
use mathlib.Core.List.{map-append}
use xelis_pool.Common.Bytes.{Bytes}
use xelis_pool.Protocol.Frames.{Aead}
use xelis_pool.Slave.Client.{lost, heard, dialling, after, listen, start_slave_client}
use xelis_pool.Slave.Client.Sent.{
  Ban, IsSent, ban_of, frame_size, frame, read_part_short, listen_lost, frame_cut, length-frame,
  listen-frame,
}

-- The bans whose frames lie whole in the first `n` bytes.
unfoldable pub arrived : ℕ → List Ban → List Ban
arrived n [] = []
arrived n (x ∷ xs) =
    let rest = arrived (n - frame_size x) xs in if ltb n (frame_size x) then [] else x ∷ rest

-- A dial of the slave: it fails, or the connection breaks after some bytes of what the master sends.
pub data Dial : Type 0 where
  no_answer : Dial
  breaks_after : ℕ → List Ban → Dial

abbrev pub IsDial : Dial → Type 0
IsDial no_answer = Unit
IsDial (breaks_after n xs) = All IsSent xs

unfoldable pub all_arrived : List Dial → List Ban
all_arrived [] = []
all_arrived (no_answer ∷ ds) = all_arrived ds
all_arrived (breaks_after n xs ∷ ds) = arrived n xs ++ all_arrived ds

module _ (aead : Aead) where
  open aead use {seal, unseal, length_seal, unseal_seal}

  -- What the master sends.
  unfoldable pub frames_of : List Ban → Bytes
  frames_of [] = []
  frames_of (x ∷ xs) = frame aead x ++ frames_of xs

  abbrev pub stream_of : Dial → Option Bytes
  stream_of no_answer = none
  stream_of (breaks_after n xs) = some (take n (frames_of xs))

  -- The bans whose frames lie in the stream are heard, and then the connection is lost.
  listen-arrived :
      (n fuel : ℕ) (xs : List Ban)
      → All IsSent xs
      → length (take n (frames_of xs)) < fuel
      → listen aead fuel (take n (frames_of xs)) ≡ lost (map ban_of (arrived n xs))
  unfolding frames_of arrived heard
  listen-arrived n zero xs h enough = absurd (omega arith)
  listen-arrived n (suc fuel) [] h enough =
      listen_lost aead (take n []) fuel
        (read_part_short aead 42 _ (omega (arith, length-take {A = ℕ} n [])))
  listen-arrived n (suc fuel) (x ∷ xs) h enough = elim (Bool-cases (ltb n (frame_size x))) [
    | inl short ↦
        rw (short, arrived) (frame_cut aead x h.0 n (frames_of xs) fuel (ground (arith, short)))
    | inr whole ↦
        let enough' : length (take (n - frame_size x) (frames_of xs)) < fuel = ground (
          arith,
          whole,
          enough,
          length-frame aead x h.0,
          length-append (frame aead x) (frames_of xs),
          length-take n (frame aead x ++ frames_of xs),
          length-take (n - frame_size x) (frames_of xs),
        ) in
        rw (whole, arrived)
          (rw
            (take-append_long n (frame aead x) (frames_of xs)
              (ground (arith, whole, length-frame aead x h.0)))
            (listen-frame aead x h.0 (take (n - length (frame aead x)) (frames_of xs)) fuel
              ∙ rw (length-frame aead x h.0)
                  (ap (heard (ban_of x)) (listen-arrived (n - frame_size x) fuel xs h.1 enough'))))
  ]

  -- Whatever dials fail, and after however many bytes each connection breaks: the slave does not
  -- panic, and what it logs are, in order, exactly the bans whose frames arrived whole; for bans
  -- with a uint64 end, a message below 2 ^ 16 bytes and nonces of 24 bytes.
  pub start_slave_client-arrived :
      (ds : List Dial)
      → All IsDial ds
      → start_slave_client aead (map stream_of ds) ≡ dialling (map ban_of (all_arrived ds))
  unfolding start_slave_client all_arrived after
  start_slave_client-arrived [] h = refl
  start_slave_client-arrived (no_answer ∷ ds) h = start_slave_client-arrived ds h.1
  start_slave_client-arrived (breaks_after n xs ∷ ds) h =
      rw
        (
          listen-arrived n (suc (length (take n (frames_of xs)))) xs h.0 (omega arith),
          start_slave_client,
        )
        (rw (start_slave_client-arrived ds h.1)
          (ap dialling (sym (map-append ban_of (arrived n xs) (all_arrived ds)))))
