-- ===== src/Epee.antt =====
-- monero-oxide/epee: the decoder of EPEE, the binary format of a daemon's answers.
pub mod Decoding
pub mod Types
pub mod Stack
pub mod Parser
pub mod View
pub mod Values
