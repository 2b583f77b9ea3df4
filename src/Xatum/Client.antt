-- ===== src/Xatum/Client.antt =====
-- The lines of Xatum: `Send` and `SendBytes` of xatum/server/server.go and xatum/client/client.go,
-- and the loop of `Connect` in xatum/client/client.go.
pub mod Lines
use xelis_pool.Common.{
  ℕ, zero, suc, Bool, true, false, Option, none, some, List, [], ◌∷◌, ◌++◌, ◌==◌, if◌then◌else◌,
}
use xelis_pool.Common.Bytes.{Bytes, codes}
use xelis_pool.Slave.Jobs.{XatumJob}
use xelis_pool.Xatum.Packets.{
  Action, skipped, closed, pong, unknown, new_job, logged, ClientJson, on_line,
}

-- The name, a `~`, the data, and the end of the line.
unfoldable pub send : Bytes → Bytes → Bytes
send name json = name ++ (126 ∷ (json ++ (10 ∷ [])))

-- `ReadString('\n')`: a line with its end, and the rest; `none` is the error at the end of the stream.
unfoldable pub read_line : Bytes → Option (Bytes × Bytes)
read_line [] = none
read_line (c ∷ cs) = elim (read_line cs) [
  | none ↦ if c == 10 then some (c ∷ [], cs) else none
  | some (line, rest) ↦ if c == 10 then some (c ∷ [], cs) else some (c ∷ line, rest)
]

unfoldable pub is_closed : Action → Bool
is_closed skipped = false
is_closed closed = true
is_closed pong = false
is_closed unknown = false
is_closed (new_job j) = false
is_closed (logged n) = false

-- The answer to a line.
unfoldable pub answer : Action → List Bytes
unfolding send
answer skipped = []
answer closed = []
answer pong = send (codes "pong") (codes "{}") ∷ []
answer unknown = []
answer (new_job j) = []
answer (logged n) = []

-- What the client does, and what it answers, until the stream ends or a line closes the connection.
-- Each line has a byte at least, so that as many rounds as bytes are enough.
unfoldable pub connect : ClientJson → ℕ → Bytes → List Action × List Bytes
unfolding read_line is_closed answer
connect json zero stream = ([], [])
connect json (suc fuel) stream = elim (read_line stream) [
  | none ↦ ([], [])
  | some (line, rest) ↦
      let a = on_line json line in
      let (actions, answers) = connect json fuel rest in
      if is_closed a then (a ∷ [], []) else (a ∷ actions, answer a ++ answers)
]
