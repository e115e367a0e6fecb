-- ===== src/Lib.antt =====
-- A verification library for dpx, a key-value store with optimistic transactions in Go.
--
-- A transaction reads from a snapshot and buffers its writes. They become a proposal, which travels
-- as bytes (shared/proposal.go), is ordered by Raft, and is applied by a state machine
-- (conductor/fsm.go): it checks the reads against the epochs of the last writes, and hands the
-- writes and the new epochs as one batch to a storage engine (engine/engine.go). Two engines are
-- in memory: one of B-trees, in one piece or in 128 shards (engine/memory/memory.go), and one that
-- keeps versions (engine/memory/mvcc.go).
--
-- The modules:
--   Base: lists, options, byte strings, association lists, bit arithmetic and a result monad with
--     a case for a panic.
--   Codec: the little-endian integers and epoch records of helpers.go, and their copies in
--     conductor/fsm.go, engine/memory/memory.go and engine/memory/mvcc.go.
--   Proposal: shared/proposal.go and the entries of shared/types.go: `Marshal`, `Unmarshal`.
--   Engine: engine/engine.go: batches, their effect on a key as the specification that each engine is
--     held against, the interface `StorageEngine` with its laws, and the reserved keys. A batch that fails
--     may leave a first part of it applied, as the engine over Oshodi does (Engine/Failure).
--   Dump: engine/memory/dump.go: `encodeDump` and `decodeDump`.
--   Memory: engine/memory/memory.go: `shardFor`, both batch types, `ApplyBatch` on either layout,
--     `ApplyShardDirect`, `Get`, `GetVersion`, `CurrentSequence`, and the scans of the plain layout.
--     Memory/ShardScans is the scans of the sharded layout, Memory/Placed which keys its shards hold.
--     Memory/Checkpoint is `CreateCheckpoint` and `Open` of both layouts, but for the file itself.
--     Memory/Interface fills the interface with the plain engine, Memory/Placed with the sharded one;
--     Memory/SortedTree shows that the hypotheses on the B-tree can hold.
--   Mvcc: engine/memory/mvcc.go: `Open` behind the decoded dump, `ApplyBatch`, `ApplyShardDirect`,
--     `Get`, snapshots, `findVersion` and `findVersionLinear`, `newIterator`, `CreateCheckpoint`
--     up to the file's bytes, and `Compact`.
--   Fsm: conductor/fsm.go: `open`, `ApplyBatch`, `detectConflict` and `applyProposal`, over any
--     `StorageEngine`.
--     Fsm/Restart opens it on the state that it has left.
--   Direct: conductor/direct.go: the proposer of an embedded node, `applyBatchDirect`, its opening,
--     and its queue: sends, `applierLoop` and `Shutdown` as steps in any order.
--   ShardedDirect: conductor/sharded_direct.go: `applyInline` on the shards' own epochs, over an engine
--     with batches and over the multi-version engine.
--   Tx: tx.go, with `collectIter` of helpers.go: the calls of a transaction's function, `readSetSlice`
--     and `validate`, over any snapshot. Tx/Reads puts a transaction and the state machine together.
--   Node: dpx.go: `RunInTx` and `runOnce`, over the direct proposer, which may be shut down meanwhile;
--     Node/Ranges: `GetRange` and `GetRangeReverse`.
--   Iter: the `Iterator` of engine/engine.go, `collectIter` of helpers.go over any of them, and the
--     iterators over collected pairs, `memIter`, `oshodiIter` and `badgerIter`.
--   Pebble: engine/pebble/pebble.go: `Int64Merger`, `pebbleConsumerIter`, batches and reads.
--   Badger: engine/badger/badger.go and dump.go: `ApplyBatch` in a transaction, reads, scans, the dump.
--   Oshodi: engine/oshodi/oshodi.go: `ApplyBatch` on the bucket, reads, scans, snapshots, and the
--     interface.
--   Watch: watch.go: registration, notification and the end of a watch.
--
-- A state is a record, an operation a function from state to state, and a map an association list
-- or a function of the shard number. Calls on the multi-version engine are steps of a relation,
-- each atomic, but for Mvcc/Interleaved, where the parts of a commit are steps of their own.
-- Words are natural numbers: an `int64` is its bit pattern, and additions wrap at 2 ^ 64. A slice
-- or an index out of range is `panic`.
--
-- Loops recurse on lists and on counts. The binary search runs on fuel: the number of versions,
-- which is enough because each round halves a range no longer than that. The loops of `collectIter`
-- take fuel too, one more than the pairs that the iterator delivers, and the loops that skip reserved
-- keys have as many rounds as the store's iterator has pairs before it or behind it.
--
-- The B-tree (tidwall/btree) is the record `BTree` of its operations and their documented laws. The
-- retry loop (olekukonko/jack) is a function that stops at an attempt without an error, the clock
-- (olekukonko/hlc) a pair of numbers. Pebble, Badger and Oshodi are the records `PebbleStore`,
-- `BadgerStore` and `Bucket`, with the laws that their reads, writes and iterators document. Pebble may
-- combine the operands of merges in any order: Pebble/Operands. The Tests beside each show that these
-- can hold. Not modelled: files, pools, telemetry, timers, opening and configuration, the batcher, the
-- Raft node with its snapshots, the workload runner and command, what a lock
-- lets run in between, and the Raft library.
pub mod Base
pub mod Codec
pub mod Proposal
pub mod Engine
pub mod Memory
pub mod Dump
pub mod Mvcc
pub mod Fsm
pub mod Direct
pub mod ShardedDirect
pub mod Tx
pub mod Watch
pub mod Node
pub mod Iter
pub mod Pebble
pub mod Badger
pub mod Oshodi
