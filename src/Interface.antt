-- ===== src/Interface.antt =====
-- monero-oxide/interface/src: what is asked of a daemon.
pub mod FeeRate
