-- ===== src/Xatum/Client/Lines.antt =====
-- The client of Xatum does what the server sends.
use xelis_pool.Common.{
  ℕ, zero, suc, ◌≤◌, ◌<◌, ◌≡◌, ◌∙◌, refl, ap, false, some, List, [], ◌∷◌, ◌++◌, map, append_assoc,
  length, length-append, All, arith, ◌==◌, ◌&&◌, ltb, if◌then◌else◌,
}
use xelis_pool.Common.Bytes.{Bytes, codes, ◌=?◌}
use xelis_pool.Slave.Jobs.{XatumJob}
use xelis_pool.Xatum.Packets.{
  Action, skipped, pong, new_job, logged, ClientJson, on_line, logged_at,
}
use xelis_pool.Xatum.Client.{send, read_line, is_closed, answer, connect}

-- What the server sends to a miner, with the level and the text of a print.
pub data Packet : Type 0 where
  job : XatumJob → Packet
  print : ℕ → Bytes → Packet
  ping : Packet

abbrev pub IsLine : Bytes → Type 0
IsLine = All (λ c. (c == 10) ≡ false)

-- The encoder of JSON writes no end of a line, and the decoder of the client reads what it wrote,
-- with white space behind it.
pub record ServerJson (client : ClientJson) : Type 0 where
  pub job_text : XatumJob → Bytes
  pub print_text : ℕ → Bytes → Bytes
  pub job_text-IsLine : (j : XatumJob) → IsLine (job_text j)
  pub print_text-IsLine : (n : ℕ) (text : Bytes) → IsLine (print_text n text)
  pub job_read : (j : XatumJob) → client.job (job_text j ++ (10 ∷ [])) ≡ some j
  pub level_read : (n : ℕ) (text : Bytes) → client.level (print_text n text ++ (10 ∷ [])) ≡ some n

abbrev pub action_of : Packet → Action
action_of (job j) = new_job j
action_of (print n text) = if ltb 0 n && ltb n 4 then logged n else skipped
action_of ping = pong

read_line-append :
    (line rest : Bytes)
    → IsLine line
    → read_line (line ++ (10 ∷ rest)) ≡ some (line ++ (10 ∷ []), rest)
unfolding read_line
read_line-append [] rest h = ground arith
read_line-append (c ∷ line) rest (hc, h) = ground (arith, hc, read_line-append line rest h)

module _ (client : ClientJson) (server : ServerJson client) where
  open server use {job_text, print_text, job_text-IsLine, print_text-IsLine, job_read, level_read}

  abbrev pub name_of : Packet → Bytes
  name_of (job j) = codes "job"
  name_of (print n text) = codes "print"
  name_of ping = codes "ping"

  abbrev pub text_of : Packet → Bytes
  text_of (job j) = job_text j
  text_of (print n text) = print_text n text
  text_of ping = codes "{}"

  unfoldable pub stream_of : List Packet → Bytes
  stream_of [] = []
  stream_of (p ∷ ps) = send (name_of p) (text_of p) ++ stream_of ps

  line_of : Packet → Bytes
  line_of p = name_of p ++ (126 ∷ (text_of p ++ (10 ∷ [])))

  on_line-line_of : (p : Packet) → on_line client (line_of p) ≡ action_of p
  unfolding on_line logged_at line_of ◌=?◌
  on_line-line_of (job j) = ground (arith, job_read j)
  on_line-line_of (print n text) = ground (arith, level_read n text)
  on_line-line_of ping = ground arith

  IsLine-text : (p : Packet) → IsLine (name_of p ++ (126 ∷ text_of p))
  IsLine-text (job j) = (refl, (refl, (refl, (refl, job_text-IsLine j))))
  IsLine-text (print n text) =
      (refl, (refl, (refl, (refl, (refl, (refl, print_text-IsLine n text))))))
  IsLine-text ping = (refl, (refl, (refl, (refl, (refl, (refl, (refl, tt)))))))

  read_line-send :
      (p : Packet) (rest : Bytes)
      → read_line (send (name_of p) (text_of p) ++ rest) ≡ some (line_of p, rest)
  unfolding send line_of
  read_line-send p rest =
      let line = name_of p ++ (126 ∷ text_of p) in
      let sent : (name_of p ++ (126 ∷ (text_of p ++ (10 ∷ [])))) ++ rest ≡ line ++ (10 ∷ rest) =
        simp append_assoc in
      let read : line ++ (10 ∷ []) ≡ name_of p ++ (126 ∷ (text_of p ++ (10 ∷ []))) =
        simp append_assoc in
      ap read_line sent
      ∙ read_line-append line rest (IsLine-text p)
      ∙ ap (λ (l : Bytes). some (l, rest)) read

  open_after : (p : Packet) → is_closed (action_of p) ≡ false
  unfolding is_closed
  open_after (job j) = refl
  open_after (print n text) = ground arith
  open_after ping = refl

  -- One answer for each ping.
  unfoldable pub pongs : List Packet → List Bytes
  pongs [] = []
  pongs (job j ∷ ps) = pongs ps
  pongs (print n text ∷ ps) = pongs ps
  pongs (ping ∷ ps) = send (codes "pong") (codes "{}") ∷ pongs ps

  answer-pongs : (p : Packet) (ps : List Packet) → answer (action_of p) ++ pongs ps ≡ pongs (p ∷ ps)
  unfolding answer pongs
  answer-pongs (job j) ps = refl
  answer-pongs (print n text) ps = ground arith
  answer-pongs ping ps = refl

  lines_read :
      (ps : List Packet) (fuel : ℕ)
      → length ps < fuel
      → connect client fuel (stream_of ps) ≡ (map action_of ps, pongs ps)
  unfolding connect stream_of pongs
  lines_read ps zero h = absurd (omega arith)
  lines_read [] (suc fuel) h = refl
  lines_read (p ∷ ps) (suc fuel) h =
      rw (read_line-send p (stream_of ps), connect)
        (rw (lines_read ps fuel (omega arith)) (
          rw (on_line-line_of p) (
            rw (open_after p)
              (ap (λ (l : List Bytes). (map action_of (p ∷ ps), l)) (answer-pongs p ps)))))

  length-stream_of : (ps : List Packet) → length ps ≤ length (stream_of ps)
  unfolding stream_of send
  length-stream_of [] = omega arith
  length-stream_of (p ∷ ps) = omega (
    arith,
    length-append (name_of p ++ (126 ∷ (text_of p ++ (10 ∷ [])))) (stream_of ps),
    length-append (name_of p) (126 ∷ (text_of p ++ (10 ∷ []))),
    length-stream_of ps,
  )

  -- The client of Xatum handles what the server sends, in order: each job reaches the miner as it
  -- was sent, each print of a level from 1 to 3 is logged at its level and one of another level is
  -- not, and each ping is answered once.
  pub connect-stream_of :
      (ps : List Packet)
      → connect client (suc (length (stream_of ps))) (stream_of ps) ≡ (map action_of ps, pongs ps)
  connect-stream_of ps = lines_read ps _ (omega (arith, length-stream_of ps))
