-- ===== src/Pow.antt =====
-- pow/: the block header that miners work on, difficulty targets, and algorithm names.
pub mod BlockMiner
pub mod Target
pub mod Algorithm
