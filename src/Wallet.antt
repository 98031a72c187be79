-- ===== src/Wallet.antt =====
-- monero-oxide/wallet: the data that the wallet puts in a transaction, and the outputs it keeps.
pub mod PaymentId
pub mod Extra
pub mod Output
