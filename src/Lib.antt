-- ===== src/Lib.antt =====
-- A model of the XELIS mining pool. A slave accepts miners (Stratum, getwork, Xatum), checks their
-- shares and sends them, added up per wallet, to the master over an encrypted connection. The
-- master keeps shares and balances in a bbolt database, shares each block reward out and pays the
-- balances.
--
-- Which file is about which code:
--   Common       lists, bytes, hexadecimal and association lists over the native numbers
--   Serializer   serializer/: the writer and the reader of records and packets
--   Database     database/database.go: the stored records, their encoding and decoding
--   Pow          pow/: the block header of 112 bytes (BlockMiner), the difficulty test (Target),
--                the names of the algorithms (Algorithm)
--   RateLimit    rate_limit/: connections per IP, scores and bans
--   Protocol     cmd/master/crypto.go and the framing and receiving loop of cmd/master/handler.go;
--                the loop of the slave is in Slave/Client
--   Xatum        xatum/server/server.go: arrivals, kicks, and the difficulty of a miner;
--                xatum/packet.go, xatum/base64.go and a line of xatum/client/client.go (Packets),
--                its loop (Client)
--   Slave        slave/client.go (Packets, Client), slave/queue.go (Cache); handleConnPacket of
--                cmd/slave/handler.go: its packets (Packet), the checks of a share (Submit) and
--                what follows an accepted one (Credit); the jobs of a miner (Jobs); the servers of
--                cmd/slave/stratum.go (Stratum), cmd/slave/getwork.go (Getwork) and
--                cmd/slave/xatum.go with cmd/slave/daemon_conn.go (Daemon); the connections that
--                they drop and accept (Sweep, and Stratum/Race for a new connection while dead
--                ones are dropped), and the servers of cmd/slave/slave.go together (Servers)
--   Master       cmd/master/: OnMessage of handler.go (Messages), Withdraw of withdraw.go
--                (Withdraw), CheckWithdraw of withdraw.go (Confirm), UpdatePendingBals of
--                updater.go (Rewards, and its least height in Heights), OnShareFound and
--                DatabaseCleanup of master.go with the hashrates of stats.go (Shares),
--                GetPplnsWindow of pplns_diff.go (Window), the statistics of stats.go and
--                OnBlockFound of block_found.go (Stats), the loops of updater.go (Updater), and
--                what the web server of api.go computes and changes (Api)
--   Tests        runs of the theorems at concrete inputs
-- A function of the code has its name in snake case: `CanDoAction` is `can_do_action`. A method
-- that changes its receiver takes and gives the state. A panic is `none` of the outermost Option.
--
-- Numbers: a uint64 or uint32 is a natural number, with `% 2 ^ 64` or `% 2 ^ 32` where the code can
-- wrap around; a subtraction adds 2 ^ 64 first. A Go map is an association list; its entries are
-- met in the order of the list, and the theorems hold for every order. float64 is a parameter
-- (Master/Float) with its operations and one law, that a conversion to uint64 gives one.
--
-- Fuel: a uvarint has at most ten groups, so `groups` takes nine rounds before the last one.
-- `big_bytes` takes as many rounds as the value, which falls in each. `handle_slave` takes one
-- round more than the stream has bytes, and so does `listen` for each connection and `connect`; a
-- round of the first two reads 42 bytes or ends, one of the last a line. `trim` and `push_chart`
-- take as many rounds as the list is long, and each drops an entry at least.
--
-- Parameters for code that is not in the repository: bbolt (Master/Store: get, put, and the list
-- that a cursor meets), XChaCha20-Poly1305 (`Aead`), the hash functions of xelis-hash, the big
-- endian writer of duggavo/serializer, JSON and the connections, the answers of the daemon and the
-- wallet. Clocks, nonces and settings are arguments. A mutex makes each function one step; the
-- Stratum server lists a new connection without it, which is also modelled as two steps
-- (Stratum/Race), and `sendPingPackets` kicks without it, which is one step here. Where a function
-- returns with the mutex of its connection held, the connection keeps that in its state
-- (`locked`), and what takes the mutex next is `blocked`. A handler of a connection is one function
-- for each line or message, which takes the connection and the limiter, and gives both, what is
-- sent, and what comes next.
--
-- Not modelled: sockets and TLS, the start of the programs, logging, configuration, and the
-- interleavings inside a handler: its goroutine for the verification of a share is a function of
-- its own (Slave/Credit), which Slave/Credit/Packets runs to its end behind the packet, and what it
-- leaves for its caller is an argument.
pub mod Common
pub mod Serializer
pub mod Database
pub mod Pow
pub mod RateLimit
pub mod Protocol
pub mod Slave
pub mod Master
pub mod Xatum
pub mod Tests
