-- ===== src/Swap.antt =====
-- Whole swaps: from the response of the API through `validate`, `*_from_swap_resp` and `new_claim` or
-- `new_refund` to the transaction that `sign_claim` or `sign_refund` returns, of src/swaps/boltz.rs,
-- src/swaps/bitcoin.rs and src/swaps/liquid.rs.
pub mod Keys
pub mod Bitcoin
pub mod Liquid
