-- ===== src/Slave/Packet.antt =====
-- `handleConnPacket` of cmd/slave/handler.go: the packets of a miner, up to the verification of a
-- share, which Slave/Credit goes on with.
pub mod Handshakes
pub mod Accepted
use xelis_pool.Common.{
  ℕ, Bool, true, false, ◌&&◌, ◌||◌, not, Option, none, some, List, [], ◌∷◌, length, ltb, ◌==◌,
  if◌then◌else◌,
}
use xelis_pool.Common.Bytes.{Bytes, codes, ◌=?◌}
use xelis_pool.Common.Hex.{decode_hex}
use xelis_pool.Common.Text.{split_first, split, replace_all, parse_uint}
use xelis_pool.RateLimit.{Limiter, can_do_action}
use xelis_pool.Pow.BlockMiner.{blockminer_length}
use xelis_pool.Slave.Submit.{
  Job, Miner, Answer, bad_length, bad_pool_nonce, blank_job_id, stale, other_block, duplicate,
  bad_timestamp, accepted, check_submit,
}
use xelis_pool.Master.Float.{Float}

-- `xatum.C2S_Handshake` and `xatum.C2S_Submit`, as far as they are read.
pub record Handshake : Type 0 where
  pub addr : Bytes
  pub algos : List Bytes

pub record Submit : Type 0 where
  pub block : Bytes
  pub hash : Bytes

-- The JSON decoder of the standard library; `none` is an error.
pub record Decoder : Type 0 where
  pub handshake : Bytes → Option Handshake
  pub submit : Bytes → Option Submit

-- What the packet came to. `silent` prints nothing.
pub data Reply : Type 0 where
  malformed need_handshake second_handshake bad_handshake bad_address bad_algos : Reply
  rate_limited bad_submit unknown silent : Reply
  checked : Answer → Reply

-- Whether the miner is kicked, and the level of the message; the level of `silent` is not read.
abbrev pub answer_kicks : Answer → Bool
answer_kicks bad_length = true
answer_kicks bad_pool_nonce = true
answer_kicks blank_job_id = true
answer_kicks stale = false
answer_kicks other_block = false
answer_kicks duplicate = false
answer_kicks bad_timestamp = true
answer_kicks (accepted job bm) = false

abbrev pub kicks : Reply → Bool
kicks silent = false
kicks unknown = false
kicks (checked a) = answer_kicks a
kicks malformed = true
kicks need_handshake = true
kicks second_handshake = true
kicks bad_handshake = true
kicks bad_address = true
kicks bad_algos = true
kicks rate_limited = true
kicks bad_submit = true

-- Level 1: `other_block` is answered as if it were accepted.
abbrev pub answer_accepts : Answer → Bool
answer_accepts other_block = true
answer_accepts (accepted job bm) = true
answer_accepts bad_length = false
answer_accepts bad_pool_nonce = false
answer_accepts blank_job_id = false
answer_accepts stale = false
answer_accepts duplicate = false
answer_accepts bad_timestamp = false

-- The job and the block of a share that goes on to its verification.
unfoldable pub accepted_of : Reply → Option (Job × Bytes)
accepted_of (checked (accepted job bm)) = some (job, bm)
accepted_of _ = none

-- `MemJob`; `LastKnownJob` is one, with the difficulty 0 at first.
pub record MemJob : Type 0 where
  pub blob : Bytes
  pub diff : ℕ
  pub height : ℕ
  pub algorithm : Bytes

-- `JobToSend`
abbrev pub JobToSend : Type 0
JobToSend = Option (ℕ × Bytes)

abbrev pub max_start_diff : ℕ
max_start_diff = 10000000

-- The difficulty that a miner asks for.
unfoldable pub clamp_diff : ℕ → ℕ → ℕ
clamp_diff min_difficulty d =
    if ltb d min_difficulty
    then min_difficulty
    else if ltb max_start_diff d
    then max_start_diff
    else d

-- The address, and the difficulty where one stands behind it and can be read.
unfoldable pub parse_addr : ℕ → Bytes → Bytes × Option ℕ
parse_addr min_difficulty addr = elim (split 43 (replace_all 46 43 addr)) [
  | [] ↦ ([], none)
  | wall ∷ rest ↦ elim rest [
    | [] ↦ (wall, none)
    | diff ∷ more ↦ elim (parse_uint diff) [
      | none ↦ (wall, none)
      | some d ↦ (wall, some (clamp_diff min_difficulty d))
    ]
  ]
]

unfoldable pub contains : List Bytes → Bytes → Bool
contains [] a = false
contains (x ∷ xs) a = x =? a || contains xs a

unfoldable pub supports : List Bytes → Bool
unfolding contains
supports algos =
    contains algos (codes "xel/0")
    || contains algos (codes "xel/1")
    || contains algos (codes "xel/2")

-- A hash in hexadecimal that has 32 bytes.
unfoldable pub claimed_hash : Bytes → Option Bytes
claimed_hash hash = elim (decode_hex hash) [
  | none ↦ none
  | some h ↦ if length h == 32 then some h else none
]

module _ (float : Float) where
  open float use {F, of_ℕ}

  -- `CData`, without the trust score.
  pub record Client : Type 0 where
    pub miner : Miner
    pub wallet : Bytes
    pub next_diff : F

  -- What a packet leaves. `work` is the hash that the miner claims, where a share was accepted.
  pub record Handled : Type 0 where
    pub client : Client
    pub limiter : Limiter
    pub reply : Reply
    pub to_send : JobToSend
    pub work : Option Bytes

  abbrev pub replied : Client → Limiter → Reply → Handled
  replied c l r = record { client = c; limiter = l; reply = r; to_send = none; work = none }

  module _ (decoder : Decoder) (is_valid : Bytes → Bool) (min_difficulty : ℕ) (last : MemJob) where
    -- A difficulty that was asked for stays, also where the algorithms are refused.
    unfoldable pub with_diff : Option ℕ → Client → Client
    with_diff none c = c
    with_diff (some d) c = record c { next_diff = of_ℕ d }

    unfoldable pub shake : Handshake → Limiter → Client → Handled
    unfolding supports with_diff parse_addr
    shake h l c =
        let (wall, diff) = parse_addr min_difficulty h.addr in
        if is_valid wall
        then (if supports h.algos
            then record {
              client = record (with_diff diff c) { wallet = wall };
              limiter = l;
              reply = silent;
              to_send = some (last.diff, last.blob);
              work = none;
            }
            else replied (with_diff diff c) l bad_algos)
        else replied c l bad_address

    unfoldable pub on_handshake : ℕ → Bytes → Limiter → Client → Handled
    unfolding shake
    on_handshake received body l c =
        if received == 1
        then elim (decoder.handshake body) [
          | none ↦ replied c l bad_handshake
          | some h ↦ shake h l c
        ]
        else replied c l second_handshake

    -- The clock in seconds and in milliseconds, and the address of the miner without its port.
    module _ (now now_ms : ℕ) (ip pool_nonce miner_id : Bytes) where
      unfoldable pub on_share : Submit → Limiter → Client → Handled
      unfolding claimed_hash
      on_share p l c =
          let (m, a) = check_submit now_ms pool_nonce miner_id p.block c.miner in
          record {
            client = record c { miner = m };
            limiter = l;
            reply = checked a;
            to_send = none;
            work = claimed_hash p.hash;
          }

      unfoldable pub on_submit : Bytes → Limiter → Client → Handled
      unfolding on_share
      on_submit body l c =
          let (l', allowed) = can_do_action ip 1 now l in
          if allowed
          then elim (decoder.submit body) [
            | none ↦ replied c l' bad_submit
            | some p ↦ on_share p l' c
          ]
          else replied c l' rate_limited

      unfoldable pub by_kind : Bytes → ℕ → Bytes → Limiter → Client → Handled
      unfolding on_handshake on_submit
      by_kind pack received body l c =
          if received == 1 && not (pack =? codes "shake")
          then replied c l need_handshake
          else if pack =? codes "shake"
          then on_handshake received body l c
          else if pack =? codes "pong"
          then replied c l silent
          else if pack =? codes "submit"
          then on_submit body l c
          else replied c l unknown

      unfoldable pub handle_conn_packet : ℕ → Bytes → Limiter → Client → Handled
      unfolding by_kind split_first
      handle_conn_packet received str l c = elim (split_first 126 str) [
        | none ↦ replied c l malformed
        | some (pack, body) ↦ by_kind pack received body l c
      ]
