-- ===== src/Slave/Getwork.antt =====
-- The getwork server: `listenGetwork`, `wsHandler` and `sendGetworkJobs` of cmd/slave/getwork.go.
pub mod Joins
pub mod Counts
pub mod Honest
use xelis_pool.Common.{
  ℕ, ◌+◌, ◌%◌, ◌^◌, Bool, true, false, ◌&&◌, ◌||◌, not, Option, none, some, List, [], ◌∷◌, ◌++◌,
  length, ltb, ◌==◌, if◌then◌else◌,
}
use xelis_pool.Common.Bytes.{Bytes, codes}
use xelis_pool.Common.Options.{◌>>=◌}
use xelis_pool.Common.Hex.{decode_hex}
use xelis_pool.Common.Text.{remove_port, split, parse_uint}
use xelis_pool.RateLimit.{Limiter, Conns, can_connect, can_do_action}
use xelis_pool.Pow.BlockMiner.{blockminer_length}
use xelis_pool.Slave.Submit.{Miner, blank_id}
use xelis_pool.Slave.Sweep.{sweep}
use xelis_pool.Slave.Jobs.{GetworkJob, new_miner, send_job_getwork}
use xelis_pool.Slave.Packet.{
  Decoder, Reply, checked, kicks, answer_accepts, clamp_diff, MemJob, JobToSend, Client, Handled,
  handle_conn_packet,
}
use xelis_pool.Xatum.{get_next_diff}
use xelis_pool.Master.Float.{Float}

-- A field of the JSON object of a message: missing or null, a string, or something else.
pub data Field : Type 0 where
  nil other : Field
  text : Bytes → Field

-- JSON of the standard library: `miner_work` and `block_template` of a message, both `nil` where it
-- is not an object, and the submit packet of a block.
pub record Json : Type 0 where
  pub fields : Bytes → Field × Field
  pub submit_data : Bytes → Option Bytes

pub data Message : Type 0 where
  block_accepted block_rejected : Message
  new_job : GetworkJob → Message

-- Whether the handler waits for its next message, is done, has panicked, or waits for the mutex of
-- its connection.
pub data Status : Type 0 where
  running returned panicked blocked : Status

-- What the request for a websocket came to.
pub data Joined : Type 0 where
  too_many rate_limited no_address bad_address joined : Joined

abbrev pub head_or_nil : List Bytes → Bytes
head_or_nil [] = []
head_or_nil (x ∷ xs) = x

-- The address in front of the first point, and the difficulty that stands behind it, 0 where there
-- is none.
unfoldable pub parse_path : ℕ → Bytes → Bytes × ℕ
unfolding split clamp_diff
parse_path min_difficulty addr = elim (split 43 (head_or_nil (split 46 addr))) [
  | [] ↦ ([], 0)
  | wall ∷ rest ↦ elim rest [
    | [] ↦ (wall, 0)
    | diff ∷ more ↦ elim (parse_uint diff) [
      | none ↦ (wall, 0)
      | some d ↦ (wall, clamp_diff min_difficulty d)
    ]
  ]
]

-- The block of a message, as far as it has one. `none` behind it is a panic.
unfoldable pub miner_work : Field × Field → Option (Option Bytes)
miner_work (nil, nil) = some none
miner_work (nil, text t) = some (some t)
miner_work (nil, other) = none
miner_work (text t, f) = some (some t)
miner_work (other, f) = none

unfoldable pub miner_blob : Bytes → Option Bytes
miner_blob t = elim (decode_hex t) [
  | none ↦ none
  | some b ↦ if length b == blockminer_length then some b else none
]

module _ (float : Float) where
  open float use {F, of_ℕ, to_ℕ}

  -- `connected` says whether the websocket is open.
  pub record GetworkConn : Type 0 where
    pub client : Client float
    pub ip : Bytes
    pub alive : Bool
    pub connected : Bool

  pub record Served : Type 0 where
    pub conns : List (GetworkConn)
    pub open_conns : Conns

  abbrev pub ip_of : GetworkConn → Bytes
  ip_of c = c.ip

  abbrev pub is_alive : GetworkConn → Bool
  is_alive c = c.alive

  abbrev pub new_conn : ℕ → Bytes → Bytes → ℕ → GetworkConn
  new_conn now_ms ip wall diff = record {
    client = record { miner = new_miner now_ms; wallet = wall; next_diff = of_ℕ diff };
    ip = ip;
    alive = true;
    connected = false;
  }

  -- The request for a websocket. The open connections of the IP are counted first, and stay
  -- counted where the request is refused behind that.
  unfoldable pub join :
      (Bytes → Bool) → ℕ → ℕ → ℕ → Bytes → Bytes → Limiter → Served → (Limiter × Served) × Joined
  unfolding parse_path
  join is_valid min_difficulty now now_ms ip addr l s =
      let (open_conns, free) = can_connect ip s.open_conns in
      let (l', allowed) = can_do_action ip 10 now l in
      let counted : Served = record s { open_conns = open_conns } in
      let (wall, diff) = parse_path min_difficulty addr in
      if free
      then (if allowed
          then (if ltb (length addr) 5
              then ((l', counted), no_address)
              else if is_valid wall
              then (
                (l', record counted { conns = s.conns ++ (new_conn now_ms ip wall diff ∷ []) }),
                joined,
              )
              else ((l', counted), bad_address))
          else ((l', counted), rate_limited))
      else ((l, s), too_many)

  pub record Turn : Type 0 where
    pub conn : GetworkConn
    pub limiter : Limiter
    pub sent : List Message
    pub status : Status

  abbrev pub turn : GetworkConn → Limiter → List Message → Status → Turn
  turn c l sent status = record { conn = c; limiter = l; sent = sent; status = status }

  abbrev pub with_miner : GetworkConn → Miner → GetworkConn
  with_miner c m = record c { client = record c.client { miner = m } }

  module _ (min_difficulty : ℕ) (pool_nonce : Bytes) where
    -- An unknown algorithm sends nothing, which is the answer `false`.
    unfoldable pub send_getwork :
        F → Bytes → ℕ → Bytes → Bytes → GetworkConn → GetworkConn × List Message × Bool
    unfolding send_job_getwork get_next_diff
    send_getwork seconds random diff blob algorithm c =
        let next = to_ℕ (get_next_diff float min_difficulty seconds c.client.next_diff) in
        let (m, job) = send_job_getwork next random pool_nonce diff blob algorithm c.client.miner in
        elim job [ none ↦ (c, [], false) | some j ↦ (with_miner c m, new_job j ∷ [], true) ]

    -- The websocket and the first job. A handler that ends here leaves its connection alive.
    unfoldable pub start : F → Bytes → Bool → MemJob → Limiter → GetworkConn → Turn
    unfolding send_getwork
    start seconds random upgraded last l c =
        let up : GetworkConn = record c { connected = true } in
        let (c', sent, ok) = send_getwork seconds random last.diff last.blob last.algorithm up in
        if upgraded
        then (if last.diff == 0
            then turn (record up { connected = false }) l [] returned
            else turn c' l sent running)
        else turn c l [] returned

    -- To every connection that is alive; `written` says whether the message could be written, and
    -- a connection whose mutex is held is left to wait.
    unfoldable pub send_all :
        F → (ℕ → Bytes) → (ℕ → Bool) → ℕ → Bytes → Bytes → ℕ → List GetworkConn → List GetworkConn
    unfolding send_getwork
    send_all seconds random written diff blob algorithm n [] = []
    send_all seconds random written diff blob algorithm n (c ∷ cs) =
        let (c', sent, ok) = send_getwork seconds (random n) diff blob algorithm c in
        (if c.client.miner.locked
          then c
          else if ok && written n
          then c'
          else record c' { alive = false; connected = false })
        ∷ send_all seconds random written diff blob algorithm (n + 1) cs

    unfoldable pub send_getwork_jobs :
        F → (ℕ → Bytes) → (ℕ → Bool) → ℕ → Bytes → Bytes → Served → Served
    unfolding sweep send_all
    send_getwork_jobs seconds random written diff blob algorithm s =
        let (cs, open_conns) = sweep ip_of is_alive s.conns s.open_conns in
        record {
          conns = send_all seconds random written diff blob algorithm 0 cs;
          open_conns = open_conns;
        }

    module _ (json : Json) (decoder : Decoder) (is_valid : Bytes → Bool) (last : MemJob)
        (first_algorithm : Bytes) (now now_ms : ℕ) (late : JobToSend) where
      unfoldable pub resend : F → Bytes → GetworkConn → GetworkConn × List Message
      unfolding send_getwork
      resend seconds random c = elim late [
        | none ↦ (c, [])
        | some (diff, blob) ↦
            let (c', sent, ok) = send_getwork seconds random diff blob first_algorithm c in
            if diff == 0 then (c, []) else (c', sent)
      ]

      -- Whether the print of the handler has the level 1.
      abbrev pub accepts : Reply → Bool
      accepts (checked a) = answer_accepts a
      accepts r = false

      -- The answer to a share that the handler has checked; the mutex is taken for it. A kick closes
      -- the websocket, and the next read fails.
      unfoldable pub answered : F → Bytes → Bool → GetworkConn → Handled float → Turn
      unfolding resend
      answered seconds random written c r =
          let c' : GetworkConn = record c { client = r.client } in
          let kept : GetworkConn = record c' {
            connected = c.connected && not (kicks r.reply || not written);
          } in
          let (c'', job) = resend seconds random kept in
          if r.client.miner.locked
          then turn c' r.limiter [] blocked
          else turn c'' r.limiter
              ((if accepts r.reply then block_accepted else block_rejected) ∷ job) running

      unfoldable pub on_blob : F → Bytes → ℕ → Bool → Bytes → Limiter → GetworkConn → Turn
      unfolding answered handle_conn_packet
      on_blob seconds random received written bm l c = elim (json.submit_data bm) [
        | none ↦ turn c l [] running
        | some body ↦ answered seconds random written c (
            handle_conn_packet float decoder is_valid min_difficulty last now now_ms
              (remove_port c.ip) pool_nonce blank_id received (codes "submit~" ++ body) l c.client)
      ]

      -- One round of the loop, `received` counting the message: the first has the number 2. `read` is
      -- the message, `none` an error of the websocket.
      unfoldable pub ws_message : F → Bytes → ℕ → Option Bytes → Bool → Limiter → GetworkConn → Turn
      unfolding miner_work miner_blob on_blob
      ws_message seconds random received read written l c = elim read [
        | none ↦ turn (record c { connected = false }) l [] returned
        | some message ↦ elim (miner_work (json.fields message)) [
          | none ↦ turn (record c { connected = false }) l [] panicked
          | some w ↦ elim (w >>= miner_blob) [
            | none ↦ turn c l [] running
            | some bm ↦ on_blob seconds random received written bm l c
          ]
        ]
      ]
