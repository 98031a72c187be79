-- ===== src/Transaction.antt =====
-- monero-oxide/src/transaction.rs: the parts of a transaction, a module for each.
pub mod Input
pub mod Output
pub mod Timelock
pub mod Prefix
pub mod Pruning
pub mod Whole
