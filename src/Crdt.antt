-- ===== src/Crdt.antt =====
-- The CRDT primitives and values of zendb-types/src/crdt.
pub mod Stamp
pub mod Counter
pub mod Removals
pub mod OrSet
pub mod PriorityQueue
pub mod MvRegister
pub mod Set
pub mod Cell
pub mod Sequence
pub mod Container
pub mod Record
pub mod List
pub mod Text
pub mod Proxy
