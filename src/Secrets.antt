-- ===== src/Secrets.antt =====
-- src/util/secrets.rs: preimages, the keys of swaps, and the refund file.
pub mod Preimage
pub mod Keys
pub mod File
