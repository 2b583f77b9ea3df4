-- ===== src/Master.antt =====
-- cmd/master/: the master, which counts shares, credits rewards and pays miners.
pub mod Messages
pub mod Understanding
pub mod Store
pub mod Stats
pub mod Updater
pub mod Api
pub mod Withdraw
pub mod Float
pub mod Rewards
pub mod Heights
pub mod Window
pub mod Shares
pub mod Confirm
