-- ===== src/Liquid.antt =====
-- src/swaps/liquid.rs: swap scripts and transactions on Liquid.
pub mod Crate
pub mod SwapScript
pub mod SwapTx
pub mod New
pub mod Blind
pub mod Create
pub mod Sign
pub mod Broadcast
pub mod HexText
pub mod Satisfied
