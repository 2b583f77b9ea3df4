-- ===== src/Slave.antt =====
-- slave/: what a slave sends to the master, and the shares that it gathers between two sends.
pub mod Packets
pub mod Jobs
pub mod Submit
pub mod Credit
pub mod Packet
pub mod Sweep
pub mod Stratum
pub mod Getwork
pub mod Daemon
pub mod Client
pub mod Servers
pub mod Cache
pub mod Delivery
