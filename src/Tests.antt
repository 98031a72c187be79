-- ===== src/Tests.antt =====
-- Concrete transactions and blocks, and the theorems at them.
pub mod Values
mod Witnesses
mod Decoder
mod Wallet
mod Addresses
mod Outputs
