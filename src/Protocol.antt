-- ===== src/Protocol.antt =====
-- The encrypted stream between a slave and the master: cmd/master/crypto.go, `SendToConn` and the
-- loop of `HandleSlave` in cmd/master/handler.go, and their twins in slave/client.go.
pub mod Frames
pub mod Stream
