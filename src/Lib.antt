-- ===== src/Lib.antt =====
-- RockLake keeps a DuckLake catalog in SlateDB, a key-value store over object storage.
-- crates/rocklake-core says how rows, keys and values are laid out; crates/rocklake-catalog
-- writes and reads snapshots of the catalog. This library models the core crate, the heart of the
-- catalog crate, and two parts of crates/rocklake-pgwire through which clients come in.
--
-- Core: `Keys` has the key and prefix builders of crates/rocklake-core/src/keys.rs (`Rows` one
-- key per table row, `Prefixes` the scans, `System` counters, leases and extensions), `BigEndian`
-- its integers, `Tags` tags.rs, `Values` the envelope of values.rs, `Mvcc` mvcc.rs, `Counters`
-- counters.rs, `Path` path.rs, `Rows` the row types of rows.rs, and `Result` the error types.
-- `Types` has the column types of types.rs with their parser (`Parse`), the comparison of
-- statistics and `prune_file` (`Compare`), on the functions of Rust's `str` in `Text`.
--
-- Catalog: `Kv` is the interface to SlateDB. `Writer` has the state of writer/mod.rs and
-- `create_snapshot` of writer/snapshot.rs; its child `RowIds` has the loop of `next_rowid_range`,
-- and `Objects`, `Views`, `Files`, `Upkeep`, `Changes` and `DropTable` have the operations that
-- stage rows, in the shape of `Step`: the writer is a state, and `?` leaves it where it is.
-- `Reader` has the listings of reader.rs and, in `Statistics`, `prune_files`, `Excise` has
-- excise.rs, `Store` the claim of the writer epoch and the sessions of store.rs, `Init` init.rs,
-- `Lease` lease.rs and `Gc` gc.rs. `Lifecycle` puts a write session and a read together.
--
-- Pgwire: `CopyParser` has copy_parser.rs, and `Session` the batch of session.rs.
--
-- How the parts interact: the store opens the database, claims the epoch and hands out writers
-- and readers. A writer takes ids from its counters and stages rows; `create_snapshot` checks the
-- epoch and the nonce and puts everything in one transaction. A reader filters what a prefix scan
-- returns by its snapshot. `gc_apply` raises the floor that `read_at` respects, after a look at
-- pins and leases in the same transaction. An excision deletes rows below that floor for good.
--
-- Conventions. A text and a byte string are lists of bytes as numbers; in `Types` a text is the
-- list of its code points, since whitespace is trimmed there. A u64 is a native number; the
-- counters wrap at 2^64 as a release build does, and checked arithmetic is written out. An i64 is
-- its bit pattern. SlateDB is the record `Kv` with what it documents: a get after a put or a
-- delete, and prefix scans that are sorted and find what is stored. A transaction reads the state
-- at its begin, and its commit either puts everything or fails; whether it fails is an argument.
-- A loop that retries a conflicting commit takes the list of its conflicting rounds, each with
-- what the others wrote, and ends with the round that does not conflict; so no fuel is needed,
-- and every length is covered. Two parsers call themselves on a rest of their input: the type
-- parser with fuel one above the length of its text, and the loop over COPY rows with fuel one
-- above the length of its stream; both are shown never to run out. The clock, uuids, the hash of
-- a tag's key and the text of a time are arguments. The standard library's f64 is the record
-- `Floats`, and `FloatLaws` says that equal floats compare alike and that NaN is ordered with
-- none; the size of a buffered operation in memory is an argument; which deletes of an excision
-- fail is an argument. prost's codecs are the record `Codecs`, with the round trip as the law. A
-- formatted message is kept as the values it shows.
--
-- Not modelled: I/O failures of SlateDB reads, the encryption of blocks, the opening of the
-- database and the migration of old keys before the claim of the epoch, the statistics of
-- writer/stats.rs, the bounding boxes of geometries, and the reader's column tree. Of the wire
-- server only the COPY parser and the batch are modelled. The SQL, DataFusion, FFI and client
-- crates and the catalog's tools are not modelled: they are protocol and I/O around these parts.
--
-- `Tests` instantiates the arguments with a store in memory and simple codecs, and applies each
-- property to a concrete input.
pub mod Prelude
pub mod Core
pub mod Catalog
pub mod Pgwire
pub mod Tests
