-- ===== src/Slave/Daemon/Links/Known.antt =====
-- What the slave knows of the daemon's jobs.
use xelis_pool.Common.{
  ℕ, ◌≡◌, ◌⊎◌, ◌∙◌, refl, ap, sym, inl, inr, true, Bool-cases, Option, Option-cases, none, some,
  List, [], ◌∷◌, ◌++◌, length, All, All-append, arith,
}
use xelis_pool.Common.Bytes.{Bytes, IsBytes, IsU64}
use xelis_pool.Common.Hex.{decode_hex, decode_hex-IsBytes}
use xelis_pool.Common.Text.{parse_uint, digits}
use xelis_pool.Pow.BlockMiner.{blockminer_length}
use xelis_pool.Pow.Algorithm.{convert_algorithm_to_stratum, convert_algorithm_to_getwork}
use xelis_pool.Pow.Algorithm.Names.{getwork_name}
use xelis_pool.Slave.Packet.{MemJob}
use xelis_pool.Slave.Daemon.{BlockTemplate, Received, skipped, fatal, known, on_template}
use xelis_pool.Slave.Daemon.Links.{Link, Linked, sent_first, receive, getwork_conn, handle_daemon}

-- A job that can be sent: a block of 112 bytes, a uint64 difficulty, and an algorithm that has a
-- getwork name.
pub record IsKnown (j : MemJob) : Type 0 where
  pub size : length j.blob ≡ blockminer_length
  pub bytes : IsBytes j.blob
  pub diff : IsU64 j.diff
  pub algorithm : (name : Bytes) × (convert_algorithm_to_getwork j.algorithm ≡ some name)

-- The last of the jobs, or one from before.
abbrev pub last_of : MemJob → List MemJob → MemJob
last_of j [] = j
last_of j (k ∷ ks) = last_of k ks

last_of-append :
    (j : MemJob) (ks ls : List MemJob) → last_of j (ks ++ ls) ≡ last_of (last_of j ks) ls
last_of-append j [] ls = refl
last_of-append j (k ∷ ks) ls = last_of-append k ks ls

parse_uint-IsU64 : (s : Bytes) (v : ℕ) → parse_uint s ≡ some v → IsU64 v
unfolding parse_uint
parse_uint-IsU64 [] v e = absurd (cc)
parse_uint-IsU64 (c ∷ cs) v e = elim (Option-cases (digits 0 (c ∷ cs))) [
  | inl f ↦ absurd (ground (arith, e, f))
  | inr (w, f) ↦ ground (arith, e, f)
]

on_template-IsKnown : (t : BlockTemplate) (j : MemJob) → on_template t ≡ known j → IsKnown j
unfolding on_template
on_template-IsKnown t j e = elim (Option-cases (decode_hex t.template)) [
  | inl f ↦ absurd (ground (arith, e, f))
  | inr (blob, f) ↦ elim (Option-cases (convert_algorithm_to_stratum t.algorithm)) [
    | inl g ↦ absurd (ground (arith, e, f, g))
    | inr (algorithm, g) ↦ elim (Option-cases (parse_uint t.difficulty)) [
      | inl h ↦ absurd (ground (arith, e, f, g, h))
      | inr (diff, h) ↦
          let made : j
              ≡ record { blob = blob; diff = diff; height = t.height; algorithm = algorithm } =
            ground (arith, e, f, g, h) in
          let sized : length blob ≡ 112 = ground (arith, e, f, g, h) in
          rw made (record {
            size = sized;
            bytes = decode_hex-IsBytes t.template blob f;
            diff = parse_uint-IsU64 t.difficulty diff h;
            algorithm = getwork_name t.algorithm algorithm g;
          })
    ]
  ]
]

Received-cases : (r : Received) → (r ≡ skipped) ⊎ ((r ≡ fatal) ⊎ ((j : MemJob) × (r ≡ known j)))
Received-cases skipped = inl refl
Received-cases fatal = inr (inl refl)
Received-cases (known j) = inr (inr (j, refl))

-- The jobs are known, and the last of them is the last known job.
abbrev pub IsLinked : MemJob → Linked → Type 0
IsLinked j r = All IsKnown r.1 × (r.0.last ≡ last_of j r.1)

receive-IsLinked : (ts : List BlockTemplate) (s : Link) → IsLinked s.last (receive ts s)
unfolding receive sent_first
receive-IsLinked [] s = (tt, refl)
receive-IsLinked (t ∷ ts) s = elim (Received-cases (on_template t)) [
  | inl e ↦ rw (e, receive) (receive-IsLinked ts s)
  | inr (inl e) ↦ rw (e, receive) (tt, refl)
  | inr (inr (j, e)) ↦
      let (later, newest) = receive-IsLinked ts (record s { last = j }) in
      rw (e, receive) ((on_template-IsKnown t j e, later), newest)
]

getwork_conn-IsLinked :
    (c : Option (List BlockTemplate)) (s : Link) → IsLinked s.last (getwork_conn c s)
unfolding getwork_conn
getwork_conn-IsLinked none s = (tt, refl)
getwork_conn-IsLinked (some ts) s = receive-IsLinked ts (record s { connected = true })

-- Whatever the daemon sends over whatever connections, of which some fail: every job that goes to
-- the miners is a block of 112 bytes with a uint64 difficulty and an algorithm that has a getwork
-- name, and the last known job is the last of them, or the one from before where there is none.
pub handle_daemon-IsLinked :
    (cs : List (Option (List BlockTemplate))) (s : Link) → IsLinked s.last (handle_daemon cs s)
unfolding handle_daemon
handle_daemon-IsLinked [] s = (tt, refl)
handle_daemon-IsLinked (c ∷ cs) s =
    let (mine, newest) = getwork_conn-IsLinked c s in
    let (later, newer) = handle_daemon-IsLinked cs (getwork_conn c s).0 in
    elim (Bool-cases (getwork_conn c s).0.running) [
      | inl on ↦
          rw (on, handle_daemon)
            (
              All-append IsKnown _ _ mine later,
              newer
                  ∙ ap (λ j. last_of j (handle_daemon cs (getwork_conn c s).0).1) newest
                  ∙ sym (
                      last_of-append s.last (getwork_conn c s).1
                        (handle_daemon cs (getwork_conn c s).0).1),
            )
      | inr off ↦ rw (off, handle_daemon) (mine, newest)
    ]
