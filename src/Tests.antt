-- ===== src/Tests.antt =====
-- Runs of the theorems at concrete inputs, by the part of the program that they are about.
pub mod Samples
pub mod Slaves
pub mod Stratum
pub mod Servers
pub mod Lines
pub mod Daemons
pub mod Statistics
pub mod Codec
pub mod Mining
pub mod Net
pub mod Money
pub mod Rewards
pub mod Shares
pub mod Confirm
