-- ===== src/Tests/Lines.antt =====
-- A run of the theorem on the lines of Xatum, with an encoder that shifts each number by 11.
use xelis_pool.Common.{
  ℕ, ◌+◌, ◌-◌, ◌≡◌, refl, ap, Option, none, some, List, [], ◌∷◌, ◌++◌, map, length, suc, arith,
}
use xelis_pool.Common.Bytes.{Bytes, codes}
use xelis_pool.Slave.Jobs.{XatumJob}
use xelis_pool.Xatum.Packets.{ClientJson}
use xelis_pool.Xatum.Client.{connect}
use xelis_pool.Xatum.Client.Lines
use xelis_pool.Xatum.Client.Lines.{
  Packet, ping, IsLine, ServerJson, action_of, pongs, connect-stream_of,
}

shifted : Bytes → Bytes
shifted [] = []
shifted (c ∷ cs) = (c + 11) ∷ shifted cs

-- All but the last, shifted back.
unshifted : Bytes → Bytes
unshifted [] = []
unshifted (c ∷ []) = []
unshifted (c ∷ d ∷ cs) = (c - 11) ∷ unshifted (d ∷ cs)

shifted-IsLine : (cs : Bytes) → IsLine (shifted cs)
unfolding shifted
shifted-IsLine [] = tt
shifted-IsLine (c ∷ cs) = (ground arith, shifted-IsLine cs)

unshifted-shifted : (cs : Bytes) → unshifted (shifted cs ++ (10 ∷ [])) ≡ cs
unfolding shifted unshifted
unshifted-shifted [] = refl
unshifted-shifted (c ∷ []) = ground arith
unshifted-shifted (c ∷ d ∷ cs) = ground (arith, unshifted-shifted (d ∷ cs))

job_of : Bytes → Option XatumJob
job_of [] = none
job_of (d ∷ blob) = some (record { diff = d; blob = blob })

level_of : Bytes → Option ℕ
level_of [] = none
level_of (n ∷ text) = some n

abbrev shift_client : ClientJson
shift_client = record { job = λ b. job_of (unshifted b); level = λ b. level_of (unshifted b) }

job_back : (j : XatumJob) → job_of (unshifted (shifted (j.diff ∷ j.blob) ++ (10 ∷ []))) ≡ some j
unfolding job_of
job_back j = ap job_of (unshifted-shifted (j.diff ∷ j.blob))

level_back :
    (n : ℕ) (text : Bytes) → level_of (unshifted (shifted (n ∷ text) ++ (10 ∷ []))) ≡ some n
unfolding level_of
level_back n text = ap level_of (unshifted-shifted (n ∷ text))

abbrev shift_server : ServerJson shift_client
shift_server = record {
  job_text = λ j. shifted (j.diff ∷ j.blob);
  print_text = λ n text. shifted (n ∷ text);
  job_text-IsLine = λ j. shifted-IsLine (j.diff ∷ j.blob);
  print_text-IsLine = λ n text. shifted-IsLine (n ∷ text);
  job_read = job_back;
  level_read = level_back;
}

abbrev some_packets : List Packet
some_packets =
    Lines.job (record { diff = 5000; blob = 1 ∷ 10 ∷ [] })
    ∷ ping
    ∷ Lines.print 2 (codes "late")
    ∷ Lines.print 0 (codes "quiet")
    ∷ []

connect-stream_of_example :
    connect shift_client
      (suc (length (Lines.stream_of shift_client shift_server some_packets)))
      (Lines.stream_of shift_client shift_server some_packets)
    ≡ (map action_of some_packets, pongs shift_client shift_server some_packets)
connect-stream_of_example = connect-stream_of shift_client shift_server some_packets
