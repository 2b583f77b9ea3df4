-- ===== src/Slave/Cache.antt =====
-- slave/queue.go: shares are added up per wallet, and sent every five seconds.
use xelis_pool.Common.{ℕ, ◌+◌, ◌%◌, ◌^◌, List, [], ◌∷◌, take, drop}
use xelis_pool.Common.Bytes.{Bytes}
use xelis_pool.Common.Assoc.{Assoc, insert, lookup_or}
use xelis_pool.Slave.Packets.{send_cached_share}

pub record ShareCache : Type 0 where
  pub num_shares : ℕ
  pub total_diff : ℕ

abbrev pub no_shares : ShareCache
no_shares = record { num_shares = 0; total_diff = 0 }

abbrev pub Cache : Type 0
Cache = Assoc ShareCache

unfoldable pub cache_share : Bytes → ℕ → Cache → Cache
cache_share wallet diff m =
    let x = lookup_or no_shares wallet m in
    insert wallet
      (record {
        num_shares = (x.num_shares + 1) % 2 ^ 32;
        total_diff = (x.total_diff + diff) % 2 ^ 64;
      })
      m

-- `SendShare` only adds to the cache.
unfoldable pub send_share : Bytes → ℕ → Cache → Cache
unfolding cache_share
send_share wallet diff m = cache_share wallet diff m

unfoldable pub packets_of : Cache → List Bytes
packets_of [] = []
packets_of ((wallet, x) ∷ m) = send_cached_share x.num_shares wallet x.total_diff ∷ packets_of m

-- The connection of the slave when the sender looks at it: `nil`, or one that takes so many messages
-- whole before its writes fail. A connection that was closed stays, and takes none.
pub data Link : Type 0 where
  no_link : Link
  takes : ℕ → Link

-- What a round of the sender leaves in the cache, and the messages that are written and that are
-- lost: `sendToConn` ignores the error of a write.
pub record Flushed : Type 0 where
  pub kept : Cache
  pub written : List Bytes
  pub lost : List Bytes

-- One round of the sender: with a connection every entry is sent, and the cache is emptied whatever
-- came of it.
unfoldable pub flush : Link → Cache → Flushed
unfolding packets_of
flush no_link m = record { kept = m; written = []; lost = [] }
flush (takes n) m = record {
  kept = [];
  written = take n (packets_of m);
  lost = drop n (packets_of m);
}
