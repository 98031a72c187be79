-- ===== src/Lib.antt =====
-- The data of the Monero protocol as monero-oxide reads, writes and hashes it: a model of its
-- formats, in which every reader is set against its writer, of the hashes that commit to them,
-- of the decoder of a daemon's answers, and of the data that a wallet puts in a transaction.
--
-- Parts, and how they interact. Bytes are natural numbers, below 256 where a theorem says so. A
-- reader is a function from the bytes that are left to a result, an error or a value with the
-- bytes behind it; a writer is a function to a list of bytes, since writing to a vector does not
-- fail.
--
--  - Common: lists, results, bytes, bits and powers that all parts share.
--  - Io models monero-oxide/io/src/lib.rs (Io/Reader, Io/Vec) and monero-oxide/io/src/varint.rs
--    (Io/VarInt). Io/Parses says what it is for a reader to read back what a writer wrote, and
--    to accept nothing else, with a lemma for each way in which readers are chained;
--    Io/Primitives has these for bytes and integers of fixed size, and Io/Vec/Laws for
--    sequences.
--  - Ed25519 models the encodings of monero-oxide/ed25519/src (compressed_point.rs, scalar.rs,
--    unreduced_scalar.rs).
--  - RingSignatures models monero-oxide/src/ring_signatures.rs; Ringct/Mlsag, Ringct/Clsag,
--    Ringct/Borromean and Ringct/Bulletproof the formats in monero-oxide/ringct/*/src/lib.rs.
--  - Ringct/RctType, Ringct/Base, Ringct/Prunable and Ringct/Proofs model
--    monero-oxide/src/ringct.rs.
--  - Transaction models monero-oxide/src/transaction.rs: Transaction/Input, Output, Timelock and
--    Prefix for these types, Transaction/Pruning for the module `sealed`, whose traits are the
--    record `PotentiallyPruned` with the instances `not_pruned` and `pruned`, and
--    Transaction/Whole for `Transaction` itself, over any such instance.
--  - Merkle models monero-oxide/src/merkle.rs, and Block monero-oxide/src/block.rs.
--  - Interface/FeeRate models monero-oxide/interface/src/provides_fee_rates.rs; its `Rate` is
--    the source's `FeeRate`.
--  - Ringct/Clsag/Decoys models monero-oxide/ringct/clsag/src/decoys.rs.
--  - Epee models monero-oxide/epee/src: Epee/Decoding io.rs and the errors of lib.rs, Epee/Types
--    and Epee/Parser parser.rs, Epee/Stack stack.rs, Epee/View and Epee/Values lib.rs. A
--    computation returns the state it leaves also when it fails, so that what an iterator or a
--    `Drop` does after an error is the source's. The source's enum `Type` is `Kind` here.
--    Epee/Stack/Laws has the list of items that the packed arrays stand for, and the files below
--    Epee/Parser, Epee/View and Epee/Values use only this list.
--  - Wallet models monero-oxide/wallet/src/extra.rs: Wallet/PaymentId, Wallet/Extra/Field for
--    `ExtraField`, and Wallet/Extra. Wallet/Output models monero-oxide/wallet/src/output.rs,
--    with the opening of a commitment of monero-oxide/ed25519/src/commitment.rs; its field
--    `data` is `contents`.
--  - Base58 models monero-oxide/wallet/base58/src/lib.rs, and Address
--    monero-oxide/wallet/address/src/lib.rs: Address/Bytes its networks, types and their bytes,
--    where the fields of `AddressBytes` and `NetworkedAddressBytes` end in `_byte` and `_bytes`,
--    and Address the displaying and parsing. A string is the list of its bytes.
--  - Tests has concrete transactions and a block, and the theorems at them.
--
-- A file Laws.antt has the conditions `IsValid` on the values that a reader returns. The
-- functions have the names of the source. A method `read` or `write` is the function of that
-- name in the module of its type, and `serialize` is `write`. Loops with a condition run on the
-- proof that they end (`write_loop`) or on fuel: `pad_outputs` on as many rounds as the greatest
-- number of outputs has bits, each of which doubles the outputs, and `reduce` on as many as
-- there are leaves, of which each round leaves fewer; `step_loop` of Epee on one turn more than
-- there are bytes, and `read_fields` of an extra and `chunks_on` on as many as there are bytes,
-- since each turn takes one or stops; `count_digits` and `put_digits` of Base58 on 64, the bits
-- of a `u64`. A panic is a missing result (`none`), or `panicked` in Epee. `usize` is of 64
-- bits.
--
-- Parameters. `reduced` is the test of curve25519-dalek for a scalar that is reduced, and
-- `keccak256` the hash function of sha3. What a theorem assumes of the latter is no more than
-- that hashes are arrays of 32 bytes. In Ringct/Clsag/Decoys the operations of the package
-- subtle are a record, with what its documentation says of them in `IsSubtle`, and so is the
-- encoding of points, with `IsEncoding`, as in Address and Wallet/Output; in Wallet/Extra
-- decompressing a point and the identity are parameters, of which nothing is assumed, and in
-- Wallet/Output what a reader leaves where it ended within a payment ID.
--
-- Not modelled: curve arithmetic, proving and verifying, which rest on other packages; the
-- capacity that vectors are made with; what a floating point value stands for but its bits, and other
-- containers of bytes than slices; the bounds on the sizes of addresses and their debug format; the rest of
-- the interface to a daemon, and the rest of the wallet.
pub mod Common
pub mod Io
pub mod Ed25519
pub mod RingSignatures
pub mod Ringct
pub mod Merkle
pub mod Block
pub mod Epee
pub mod Interface
pub mod Wallet
pub mod Base58
pub mod Address
pub mod Tests
pub mod Transaction
