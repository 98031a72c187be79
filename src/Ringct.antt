-- ===== src/Ringct.antt =====
-- monero-oxide/src/ringct.rs and monero-oxide/ringct: the wire formats of the RingCT proofs.
pub mod Mlsag
pub mod Clsag
pub mod Borromean
pub mod Bulletproof
pub mod RctType
pub mod Base
pub mod Prunable
pub mod Proofs
