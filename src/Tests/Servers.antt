-- ===== src/Tests/Servers.antt =====
-- Runs of the theorems on the three servers together and on the daemon.
use xelis_pool.Pow.Algorithm.{convert_algorithm_to_stratum}
use xelis_pool.Common.Hex.{decode_hex}
use xelis_pool.Common.Bytes.{◌=?◌, Bytes, codes}
use xelis_pool.Slave.Packet.{MemJob}
use xelis_pool.Slave.Daemon.{BlockTemplate}
use xelis_pool.Slave.Daemon.Links.{Link, handle_daemon}
use xelis_pool.Slave.Daemon.Links.Known.{IsLinked, handle_daemon-IsLinked}
use xelis_pool.Common.{replicate, List, Option, some, false, ◌∷◌, ◌≡◌, true, none, [], refl}

-- A job with a text that is no block, and one of 112 bytes.
abbrev a_template : Bytes → BlockTemplate
a_template text = record {
  template = text;
  difficulty = codes "5000";
  height = 9;
  algorithm = codes "xel/v2";
}

abbrev two_links : List (Option (List BlockTemplate))
two_links =
    none ∷ some (a_template (codes "zz") ∷ a_template (replicate 224 48) ∷ []) ∷ some [] ∷ []

abbrev no_link : Link
no_link = record {
  last = record { blob = []; diff = 0; height = 0; algorithm = [] };
  connected = false;
  running = true;
}

abbrev the_job : MemJob
the_job = record { blob = replicate 112 0; diff = 5000; height = 9; algorithm = codes "xel/1" }

one_job_sent :
    handle_daemon two_links no_link
    ≡ (record { last = the_job; connected = true; running = true }, the_job ∷ [])
unfolding handle_daemon decode_hex convert_algorithm_to_stratum ◌=?◌
one_job_sent = refl

handle_daemon-IsLinked_example : IsLinked no_link.last (handle_daemon two_links no_link)
handle_daemon-IsLinked_example = handle_daemon-IsLinked two_links no_link
