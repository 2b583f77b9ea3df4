-- ===== src/Slave/Delivery.antt =====
-- Where the difficulty of the miners' shares goes: to the master, into the cache, or into a
-- connection that is broken.
use xelis_pool.Common.{
  ℕ, ◌+◌, ◌^◌, ◌<◌, Option, some, List, [], ◌∷◌, ◌++◌, length, All, if◌then◌else◌,
}
use xelis_pool.Common.Bytes.{Bytes, IsU64, ◌=?◌}
use xelis_pool.Slave.Cache.{ShareCache, Cache, cache_share, Link, Flushed, flush}
use xelis_pool.Master.Messages.{Action, share_found, on_message}

-- The difficulty of a wallet in the cache.
unfoldable pub cached : Bytes → Cache → ℕ
cached w [] = 0
cached w ((j, x) ∷ m) = (if j =? w then x.total_diff else 0) + cached w m

-- The difficulty that the master counts for a wallet from one message, and from several.
unfoldable pub credit : Bytes → Option Action → ℕ
credit w (some (share_found wallet diff n)) = if wallet =? w then diff else 0
credit w _ = 0

unfoldable pub credited : Bytes → List Bytes → ℕ
unfolding credit
credited w [] = 0
credited w (msg ∷ msgs) = credit w (on_message msg) + credited w msgs

-- The entries fit their encoding.
abbrev pub IsEntry : Bytes × ShareCache → Type 0
IsEntry e = (length e.0 < 2 ^ 63) × (e.1.num_shares < 2 ^ 32) × IsU64 e.1.total_diff

abbrev pub IsCache : Cache → Type 0
IsCache = All IsEntry

-- A share of a miner, or a round of the sender.
pub data Event : Type 0 where
  share : Bytes → ℕ → Event
  round : Link → Event

-- The cache at the end, and the messages that were written and that were lost, in order.
unfoldable pub run : Cache → List Event → Flushed
run m [] = record { kept = m; written = []; lost = [] }
run m (share w diff ∷ es) = run (cache_share w diff m) es
run m (round link ∷ es) =
    let f = flush link m in
    let later = run f.kept es in
    record { kept = later.kept; written = f.written ++ later.written; lost = f.lost ++ later.lost }

unfoldable pub submitted : Bytes → List Event → ℕ
submitted w [] = 0
submitted w (share j diff ∷ es) = (if j =? w then diff else 0) + submitted w es
submitted w (round link ∷ es) = submitted w es

abbrev pub IsMiner : Event → Type 0
IsMiner (share w diff) = length w < 2 ^ 63
IsMiner (round link) = Unit

-- The difficulty of a wallet in what a round or a run comes to.
abbrev pub accounted : Bytes → Flushed → ℕ
accounted w f = credited w f.written + credited w f.lost + cached w f.kept
