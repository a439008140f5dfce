-- ===== src/Boltz.antt =====
-- src/swaps/boltz.rs: the data of the Boltz API and what the client checks of it.
pub mod Types
pub mod Client
pub mod WebSocket
pub mod States
pub mod Limits
pub mod SwapFees
pub mod Lookups
pub mod Cooperative
pub mod Offer
pub mod Validate
pub mod Pairs
pub mod Endpoints
