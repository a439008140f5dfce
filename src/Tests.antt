-- ===== src/Tests.antt =====
-- Concrete crates that satisfy the documented laws, and each theorem applied to concrete data.
mod Files
mod Sockets
mod Cooperation
mod Hashes
mod Scripts
mod Crates
mod Swaps
mod Lockups
mod Transactions
mod Responses
mod Api
mod Elements
mod Liquid
mod Validate
mod Routing
mod Lnurl
mod Satisfied
mod Settled
mod SettledLiquid
