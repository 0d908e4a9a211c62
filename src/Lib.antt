-- ===== src/Lib.antt =====
-- The light wallet server lightwalletd-rs: its block cache, the fetching, filtering and framing of
-- compact blocks, and the methods that serve blocks and block ranges.
--
-- The parts and how they work together. The ingestor fetches blocks from a full node (src/fetch.rs) and
-- appends them to an on-disk cache (src/cache.rs). Wallets ask for blocks through gRPC methods
-- (src/service/blocks.rs): a range is read from the cache in chunks, each under one read transaction,
-- and the heights that the cache lacks come from the node. Each block is pruned to the pools that were
-- asked for (src/filter.rs) and sent in batches (src/service/framing.rs). A stream that meets two blocks
-- which do not connect ends with an error and reports the suspect height to the ingestor through a slot
-- (src/repair.rs). A server publishes the completed epochs of its cache as a snapshot
-- (src/snapshot/export.rs), and a new one fills its cache from a peer's snapshot, after it has checked
-- each epoch against its own node (src/snapshot/import.rs). Wallets also ask for the balance, the
-- outputs and the transactions of transparent addresses (src/service/address.rs), which the node answers.
--
-- Which file models which part:
--   Cache, Cache/*          src/cache.rs. A redb table is its contents in key order, and a transaction is
--                           a function from the committed contents to the next, or to the same contents
--                           and an error. Cache/Chain is the abstract view, a run of blocks at
--                           consecutive heights; Append, Truncate, Read, Check and Chunk say what the
--                           operations do to it and what they read from it, and Append/Refusals what an
--                           append refuses.
--   Repair                  src/repair.rs. One number, and the order in which tasks reach it.
--   Encoding                src/encoding.rs.
--   Filter, Filter/*        src/filter.rs.
--   Framing                 src/service/framing.rs.
--   Fetch, Fetch/Checks     src/fetch.rs.
--   Node, Proto, Status     the answers and errors of src/node/, the messages of proto/, and gRPC codes.
--   Errors                  src/service/errors.rs.
--   Ingestor, Ingestor/*    src/ingestor.rs: a step, what it keeps of a window, rolling back, recovery, and
--                           the budget of repairs. How the fetch task of a height ends is a function of
--                           the height. Loop is the endless loop (run) as a step relation, in which the
--                           read path may report a height at any time.
--   Blocks, Blocks/*        src/service/blocks.rs and block_at of src/service/mod.rs. The loop of
--                           block_range_stream is serve_chunks, its inner loop serve_heights; Steps has
--                           an equation for each way that a step goes, Heights says which heights are
--                           served, Sources where a block comes from, Links how blocks connect, Stream
--                           what the whole stream yields, and Requests the four methods (Guards what
--                           they accept, Valid what they answer).
--   Addresses, Addresses/*  src/service/address.rs: the methods, the pages of outputs, and addresses that are
--                           streamed in.
--   Mempool, Mempool/*      src/service/mempool_monitor.rs (refresh) and the stream of the shared snapshot in
--                           src/service/mempool.rs, as what it has sent after each of its wakes.
--   Snapshot/Epoch, Digest  the epoch arithmetic and the stored digests of src/snapshot/format.rs.
--   Snapshot/Body, Body/*   the epoch body of src/snapshot/format.rs: what is written and what is parsed.
--   Snapshot/Manifest       the manifest, and validate_manifest of src/snapshot/import.rs.
--   Snapshot/Failure        SnapshotError of src/snapshot/mod.rs.
--   Snapshot/Verify, */*    verify_epoch of src/snapshot/import.rs. Layers, Records and Anchor say what each
--                           layer establishes, Sound what all of them do, Accepts what passes them.
--   Snapshot/Import, */*    import of src/snapshot/import.rs: the turn of each entry, the blocks that arrive,
--                           the junction with the cache, and whole imports.
--   Snapshot/Peer, */*      the source over HTTP of src/snapshot/import.rs and its attempts.
--   Snapshot/Export, */*    src/snapshot/export.rs: the bodies that are served and the digests that are kept.
--   Snapshot/Published      export and import together.
--   Base, Base/*            the shared helpers: results, lists, bytes, ordered tables, integers.
--   Tests, Tests/*          the theorems at concrete inputs.
--
-- Numbers and bounds. A u64 is a natural number; sums that the source does not guard wrap at 2^64 and
-- saturating ones saturate (add64, sub64, sat_add64). Where a theorem needs a number to be a u64, or a
-- height to have a successor, it says so.
--
-- Fuel. The outer loop of the range stream runs on one more round than the range has steps from its
-- first height to its last; each round serves at least one height, so the loop never runs out. The scan
-- for the next epoch to digest runs on one more than the epochs up to the tip's, and ends there. The
-- attempts of the HTTP source run on the number of attempts that are allowed, and the batches of an
-- epoch's hash lookups on the number of heights.
--
-- Parameters. The prost encoding of a block (Codec), the hex crate (Hex), SHA-256, the UTF-8 test, the
-- block parser, serde_json, the replies of a snapshot peer, the node's answers, and the encoded length
-- of a message are arguments, with their round trips as hypotheses
-- where a theorem needs them. The caches that the read transactions of one request see are a function
-- of the transaction's number, so that the ingestor may change the cache between any two of them.
--
-- The lookups that verify an epoch run one after the other, which is one of the orders that the workers
-- of fetch_block_hashes can take. Each transaction of the digest maintenance sees a cache of its own.
--
-- Not modelled: faults of redb and of the blocking tasks, the texts of error messages, logging, metrics,
-- how long anything sleeps; the HTTP server for snapshots; GetMempoolTx and the mempool methods that ask
-- the node for each request; the subtree, treestate and transaction methods, the darkside test server, the bulkhead, the read state backend, the parser of compact blocks,
-- the configuration and the transport.
pub mod Addresses
pub mod Base
pub mod Blocks
pub mod Cache
pub mod Encoding
pub mod Errors
pub mod Fetch
pub mod Filter
pub mod Framing
pub mod Ingestor
pub mod Mempool
pub mod Node
pub mod Proto
pub mod Repair
pub mod Snapshot
pub mod Status
pub mod Tests
