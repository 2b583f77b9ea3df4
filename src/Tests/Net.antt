-- ===== src/Tests/Net.antt =====
-- Runs of the theorems on connections, bans, frames and messages.
use xelis_pool.Serializer.Reader.{
  read_uvarint, read_uint64, slice_of, read_string, fixed, read_uint8,
}
use xelis_pool.Serializer.Uvarint.{uvarint_loop, uvarint, groups}
use xelis_pool.Common.Bytes.{le_value, le_bytes, Bytes, IsU64, codes, ◌=?◌}
use xelis_pool.Protocol.Frames.{send_to_conn, panicked, handle_slave}
use xelis_pool.Common.Assoc.{lookup_or}
use xelis_pool.Common.{
  ◌^◌, ◌≤◌, ◌<◌, ◌≡◌, refl, none, ◌++◌, false, some, List, [], ◌∷◌, length, suc, arith, replicate,
  map, ℕ,
}
use xelis_pool.RateLimit.{Limiter, can_do_action}
use xelis_pool.RateLimit.Bans
use xelis_pool.RateLimit.Bans.{act, ban_until, clear, score_ban_lasts}
use xelis_pool.RateLimit.Budget.{Action, asked, allowed, allowed-le-max_score}
use xelis_pool.Protocol.Stream.{Sent, IsHandled, messages, stream_of, stream_received}
use xelis_pool.Slave.Client.{dialling, start_slave_client}
use xelis_pool.Slave.Client.Breaks
use xelis_pool.Slave.Client.Sent.{Ban, IsSent, ban_of, message_of}
use xelis_pool.Slave.Client.Breaks.{
  Dial, no_answer, breaks_after, all_arrived, start_slave_client-arrived,
}
use xelis_pool.Slave.Packets.{on_master_message}
use xelis_pool.Slave.Cache.{no_link, takes}
use xelis_pool.Slave.Delivery.{share, round}
use xelis_pool.Slave.Delivery
use xelis_pool.Master.Messages.{stats_packet, share_packet, serialize_ban, stats, on_message}
use xelis_pool.Tests.Samples.{plain_aead}

abbrev an_ip : Bytes
an_ip = codes "10.0.0.1"

abbrev fresh_limiter : Limiter
fresh_limiter = record { scores = []; bans = [] }

-- A costly action at 1000, a clean-up and a shorter ban, and another action.
score_ban_lasts_example :
    (can_do_action an_ip 1 1299 (
      Bans.run
        (can_do_action an_ip 2001 1000 fresh_limiter).0
        (clear 1100 ∷ ban_until an_ip 1101 1100 ∷ act an_ip 1 1200 ∷ []))).1
    ≡ false
unfolding lookup_or
score_ban_lasts_example =
    score_ban_lasts an_ip fresh_limiter 2001 1000
      (clear 1100 ∷ ban_until an_ip 1101 1100 ∷ act an_ip 1 1200 ∷ []) 1 1299 (omega arith)
      (omega arith)
      ((omega arith, omega arith), ((omega arith, omega arith), ((omega arith, omega arith), tt)))
      (omega arith)

abbrev two_actions : List Action
two_actions =
    record { ip = an_ip; cost = 1999; now = 5 } ∷ record { ip = an_ip; cost = 10; now = 6 } ∷ []

allowed-le-max_score_example : allowed an_ip fresh_limiter two_actions ≤ 2000
unfolding asked ◌=?◌ lookup_or
allowed-le-max_score_example =
    allowed-le-max_score an_ip fresh_limiter two_actions refl (omega arith)

abbrev a_message : Sent
a_message = record { nonce = replicate 24 1; nonce' = replicate 24 2; msg = 2 ∷ 5 ∷ [] }

-- A string whose declared length is 2 ^ 63.
abbrev a_panic : Sent
a_panic = record a_message { msg = 0 ∷ 0 ∷ replicate 9 128 ++ (1 ∷ []) }

a_message-IsHandled : IsHandled a_message
unfolding on_message read_uint8 fixed read_uvarint uvarint uvarint_loop le_value stats_packet
a_message-IsHandled = (stats 5, refl)

a_panic_lem : on_message a_panic.msg ≡ none
unfolding on_message read_uint8 fixed read_uvarint uvarint uvarint_loop read_string slice_of
    le_value share_packet
a_panic_lem = refl

stream_received_example :
    let stream =
      stream_of plain_aead (a_message ∷ [])
      ++ (send_to_conn plain_aead a_panic.nonce a_panic.nonce' a_panic.msg ++ []) in
    handle_slave plain_aead (suc (length stream)) stream ≡ panicked (messages (a_message ∷ []))
stream_received_example =
    (stream_received plain_aead (a_message ∷ [])
        (record { first = refl; second = refl; fits = omega arith }, tt)
        (a_message-IsHandled, tt)).1
      a_panic [] (record { first = refl; second = refl; fits = omega arith }) a_panic_lem

abbrev a_wallet : Bytes
a_wallet = codes "xel:abc"

abbrev a_nonce : Bytes
a_nonce = replicate 24 7

abbrev a_ban : ℕ → Ban
a_ban ends = record { ip = an_ip; ends = ends; nonce = a_nonce; nonce' = a_nonce }

-- A refused dial, a connection that breaks inside its second frame, and one that brings all.
abbrev some_dials : List Dial
some_dials =
    no_answer
    ∷ breaks_after 150 (a_ban 1700000000 ∷ a_ban 1700000300 ∷ [])
    ∷ breaks_after 1000 (a_ban 1700000600 ∷ [])
    ∷ []

a_ban_fits : (ends : ℕ) → length (message_of (a_ban ends)) < 2 ^ 16
unfolding serialize_ban groups le_bytes
a_ban_fits ends = omega arith

a_ban-IsSent : (ends : ℕ) → IsU64 ends → IsSent (a_ban ends)
a_ban-IsSent ends h = record { first = refl; second = refl; end = h; fits = a_ban_fits ends }

two_bans_logged :
    start_slave_client plain_aead (map (Breaks.stream_of plain_aead) some_dials)
    ≡ dialling (some (an_ip, 1700000000) ∷ some (an_ip, 1700000600) ∷ [])
unfolding start_slave_client Breaks.frames_of send_to_conn le_bytes serialize_ban groups
    on_master_message read_uint8 fixed le_value read_string uvarint uvarint_loop slice_of
    read_uint64
two_bans_logged = refl

start_slave_client-arrived_example :
    start_slave_client plain_aead (map (Breaks.stream_of plain_aead) some_dials)
    ≡ dialling (map ban_of (all_arrived some_dials))
start_slave_client-arrived_example = start_slave_client-arrived plain_aead some_dials (
  tt,
  (
    (a_ban-IsSent 1700000000 (omega arith), (a_ban-IsSent 1700000300 (omega arith), tt)),
    ((a_ban-IsSent 1700000600 (omega arith), tt), tt),
  ),
)

-- Two shares, a round with no connection, one with it, a share that is lost with a broken connection,
-- and one that stays.
abbrev some_events : List Delivery.Event
some_events =
    share a_wallet 100
    ∷ share a_wallet 200
    ∷ round no_link
    ∷ round (takes 1)
    ∷ share a_wallet 50
    ∷ round (takes 0)
    ∷ share a_wallet 60
    ∷ []
