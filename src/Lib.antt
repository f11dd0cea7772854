-- ===== src/Lib.antt =====
-- ZenDB: replicated data types and their storage, a model of the parts below with its theorems.
--
-- The program. A peer changes a value by an operation that carries the stamp of its event, and merges
-- the values of other peers; the types of zendb-types/src/crdt/values do both so that peers which have
-- seen the same events agree. zendb-storage keeps the events in a topic, an append-only log of segment
-- files with named consumers, and the rows of a table in a state and a cache, which are written after
-- the topic.
--
-- The files.
--   Prelude.antt: Boolean tests, orders (`Ord`, `PartialEq`), results, lists, semilattices, integers.
--   Map.antt: BTreeMap as an association list with ascending keys (Map/Defs.antt, Map/Sorted.antt), and
--     the loop that the merges of the set, the counter, the observed-remove set and the priority queue
--     share (Map/Merge.antt): for each entry of the remote map, merge it into the local entry, or
--     insert it, and report whether anything changed. Its children relate the loop to the join of
--     two maps, key by key.
--   Crdt/Stamp.antt: zendb-types/src/crdt/stamp.rs. The types below take any totally ordered stamps.
--   Crdt/Set.antt, Crdt/Counter.antt, Crdt/OrSet.antt, Crdt/PriorityQueue.antt, Crdt/MvRegister.antt:
--     the files of these names in zendb-types/src/crdt/values, `apply`, `merge`, `max_stamp` and the
--     queries. A method on `&mut self` is a function that gives back the new state beside its result,
--     so an early error leaves what was written before it. Crdt/Removals.antt is about the removal
--     maps of the observed-remove set and of the register.
--   Crdt/Cell.antt: zendb-types/src/crdt/cell.rs and op.rs, a cell over any type of values with the
--     operations of the traits (`ValueType`). Live, Register, Scalar and Convergence are its theorems.
--   Crdt/Proxy.antt: `CellProxy` of zendb-types/src/crdt/_traits.rs with its implementations in int.rs,
--     bool.rs, string.rs, float.rs, timestamp.rs and blob.rs; RoundTrip is its theorems.
--   Crdt/Container.antt, Crdt/Record.antt, Crdt/List.antt: what record.rs and list.rs share, and the two
--     containers, whose elements are cells. Their convergence is relative to that of the cells
--     (`CellConverges`), and makes a record a value that converges again (`record-Converges`).
--   Crdt/Sequence.antt: `visible_ids` and `walk_visible`, which list.rs and text.rs share but for what an
--     entry says. Visited, Outcome, Walk, Children and Visible lead to its specification.
--   Crdt/Text.antt: text.rs, in Defs, Apply, Merge and Query; Entry and Convergence are its theorems.
--   Topic/Frame.antt: the bytes of a segment of zendb-storage/src/topic.rs, and the scan after a crash.
--   Topic/State.antt and Topic/State/Reader.antt: the writer and the consumers of the same file. Log,
--     Chains, Retention, Delivery, Cursor and Drain relate them to the abstract log of records,
--     Consumers and Sync are about the handles, Reach about all sequences of operations, and Open about
--     `open` after a crash.
--   Table.antt: zendb-storage/src/table, rows in a materialized state with a bounded cache over it
--     (get, insert, drain_cache, entries, size). Iteration, Rows, Flush, Size and Validity
--     are its theorems.
--   Storage/Backend.antt: zendb-storage/src/backend/_traits.rs, the interface of the backends with its
--     laws (`IsMap`) and the methods defined by the others; Bulk is its theorems, for any backend.
--   Storage/State.antt: zendb-storage/src/backend/state.rs, the choice between three backends and the
--     ordered reads of an unordered one; Ends is about the latter.
--   Storage/KeyDir.antt: zendb-storage/src/backend/keydir.rs, the log of records with its index. Rebuild
--     is about the replay of a log, Snapshot and Compaction about the sweep, Refinement and Operations
--     about the map that the directory implements, Implementation fills the interface,
--     and History is about all sequences of its calls and reopening the file.
--   Workspace/Receipts.antt: zendb-workspace/src/devices/receipts.rs, the sequence numbers seen from a
--     peer; Ranges and Seen are its theorems.
--   Tests.antt: runs on concrete inputs, and an instance of each result.
--
-- Parameters. A cell, a record and a list take the operations of the values in their cells, which contain
-- cells again, as a record of functions. The order of peer ids and the order of the keys are instance
-- arguments with the laws of a total order; so is the equality of the values of a priority queue and of
-- a register. The decoder of a topic's values is any function on the bytes, the encoding is given as the bytes. The table takes
-- its cells, their operation `apply_walk` and the encoder of a change as parameters; the state and
-- the cache are maps, as their backends promise. A key directory takes the sizes of what the
-- encoder writes, and the test of the dead bytes against the configured ratio, which is on floats.
--
-- Integers. Counters hold u64 in the source: the check of the addition is written out. The length of a
-- record is taken modulo 2^32, as the cast does. So are the lengths and the
-- size of a record in a key directory (`as_u32`); its theorems are about records shorter than 2^32 bytes,
-- which the casts leave alone and whose lengths are none of the marks. Offsets and byte counts are u64
-- that only grow by the size of what is written; they are natural numbers here. In a conversion a machine integer is an integer
-- within the range of its type, and the width of a pointer is a parameter.
--
-- Fuel. The scan of a segment has the length of the file for fuel; a round moves on by 4 bytes or more.
-- The walk of a list or a text has the number of the entries plus one for fuel, which bounds its depth;
-- a recursive call has visited one entry more.
-- Collecting the records of a consumer takes one call of `next` more than there are records left.
-- The merged iteration of a table has the number of the rows on both sides for fuel; a round takes one.
--
-- Not modelled: failing system calls; the two copies of a topic's segment list, which change together;
-- the names of the segment files, `flush` and `sync`; the opening of a table and its recovery; the
-- dispatch over all types of values; the skip list, the B-tree and the
-- rest of the workspace. The mapped file of a key
-- directory is the sequence of its records. A compaction reads them from the log that it overwrites:
-- that it overwrites nothing it has still to read is the subject of Storage/KeyDir/InPlace.antt.
pub mod Prelude
pub mod Map
pub mod Crdt
pub mod Topic
pub mod Table
pub mod Storage
pub mod Tests
pub mod Workspace
