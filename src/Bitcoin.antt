-- ===== src/Bitcoin.antt =====
-- src/swaps/bitcoin.rs: swap scripts and swap transactions on the Bitcoin chains.
pub mod Crate
pub mod SwapScript
pub mod Utxos
pub mod SwapTx
pub mod Claim
pub mod Refund
pub mod KeyPath
pub mod Sign
pub mod New
pub mod Size
pub mod Satisfied
