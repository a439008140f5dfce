-- ===== src/Script.antt =====
-- Scripts as the swap modules read and write them (src/swaps/bitcoin.rs, src/swaps/liquid.rs).
pub mod Instruction
pub mod LittleEndian
pub mod Tree
pub mod ReadBack
pub mod LockTime
pub mod Consensus
